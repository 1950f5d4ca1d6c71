-- ===== src/Host/Chunks/Panics.antt =====
-- The index of `received_chunks` that can be out of range: a message in flight has as many places as its
-- first packet said, and a later packet is checked against its own `total_chunks` only.
use gibberish.Prelude.{
  ℕ, zero, suc, ◌<◌, ◌≡◌, inl, inr, refl, ap, ap₂, ◌∙◌, sym, subst, Bool, true, false, none, some,
  List, [], ◌∷◌, length, length-set, length-replicate, Option, is_some, all, All, get_elem?, arith,
  Bool-cases, Option-cases, leb, leb→le,
}
use gibberish.Prelude.HashMap.{HashMap, get, put, remove, retain}
use gibberish.Protocol.Packet.{MeshPacket}
use gibberish.Crypto.{Primitives, Result, ok, err, derive_sender_subkey, decrypt_chunk}
use gibberish.Host.Chunks.Engine.{
  ChunkEngine, InFlightMessage, Key, same_key, new_engine, new_in_flight, purge_expired, within,
  reassembly_timeout,
}
use gibberish.Host.Chunks.Receive.{
  Outcome, panicked, returned, finish, store, entry, fill, admitted, admit, ingest_packet,
}
use gibberish.Host.Chunks.Branches.{misnumbered, ingest_packet-cases}
use gibberish.Host.Chunks.Eviction.{All-IsRest, retain-IsRest, IsRest-refl, admitted-IsRest}

unfoldable pub is_panicked : Outcome → Bool
is_panicked panicked = true
is_panicked (returned r) = false

get_elem?-past :
    {A : Type 0} (xs : List A) (i : ℕ) → get_elem? xs i ≡ none → leb (length xs) i ≡ true
get_elem?-past [] i h = ground arith
get_elem?-past (x ∷ xs) zero h = absurd (ground arith)
get_elem?-past (x ∷ xs) (suc i) h = ground (arith, get_elem?-past xs i h)

-- A packet claims the number of chunks that its sender and message id stand for.
abbrev pub IsSized : (Key → ℕ) → ℕ × (ℕ × MeshPacket) → Type 0
IsSized size (now, (src, p)) = p.header.total_chunks ≡ size (src, p.header.msg_id)

-- Every message in flight has as many places.
abbrev Agreed : (Key → ℕ) → HashMap Key InFlightMessage → Type 0
Agreed size m = All (λ e. length e.1.received_chunks ≡ size e.0) m

same_key→eq : (k j : Key) → same_key k j ≡ true → k ≡ j
unfolding same_key
same_key→eq (a, b) (c, d) h = ap₂ (λ x y. (x, y)) (ground arith) (ground arith)

module _ (size : Key → ℕ) where
  retain-Agreed :
      (keep : Key × InFlightMessage → Bool) (m : HashMap Key InFlightMessage)
      → Agreed size m
      → Agreed size (retain keep m)
  retain-Agreed keep m h =
      All-IsRest (λ e. length e.1.received_chunks ≡ size e.0) (retain keep m) m
        (retain-IsRest keep m m (IsRest-refl m)) h

  remove-Agreed :
      (key : Key) (m : HashMap Key InFlightMessage)
      → Agreed size m
      → Agreed size (remove same_key key m)
  unfolding remove
  remove-Agreed key m h = retain-Agreed _ m h

  admitted-Agreed :
      (src : ℕ) (key : Key) (e : ChunkEngine)
      → Agreed size e.in_flight
      → Agreed size (admitted src key e).in_flight
  admitted-Agreed src key e h =
      All-IsRest (λ x. length x.1.received_chunks ≡ size x.0) (admitted src key e).in_flight
        e.in_flight (admitted-IsRest src key e e.in_flight (IsRest-refl e.in_flight)) h

  put-Agreed :
      (key : Key) (m : InFlightMessage) (ms : HashMap Key InFlightMessage)
      → length m.received_chunks ≡ size key
      → Agreed size ms
      → Agreed size (put same_key key m ms)
  unfolding put
  put-Agreed key m [] l h = (l, tt)
  put-Agreed key m (e ∷ ms) l h = elim (Bool-cases (same_key key e.0)) [
    | inl s ↦ rw s (l, h.1)
    | inr s ↦ rw s (h.0, put-Agreed key m ms l h.1)
  ]

  get-Agreed :
      (key : Key) (m : InFlightMessage) (ms : HashMap Key InFlightMessage)
      → Agreed size ms
      → get same_key key ms ≡ some m
      → length m.received_chunks ≡ size key
  unfolding get
  get-Agreed key m [] h g = absurd (ground (arith, g))
  get-Agreed key m (e ∷ ms) h g = elim (Bool-cases (same_key key e.0)) [
    | inl s ↦
        let found : e.1 ≡ m = ground (arith, s, g) in
        ap (λ x. length x.received_chunks) (sym found) ∙ h.0 ∙ ap size (sym (same_key→eq key e.0 s))
    | inr s ↦ get-Agreed key m ms h.1 (ground (arith, s, g))
  ]

  length-entry :
      (now : ℕ) (key : Key) (e : ChunkEngine)
      → Agreed size e.in_flight
      → length (entry now key (size key) e).received_chunks ≡ size key
  unfolding entry new_in_flight
  length-entry now key e h = elim (Option-cases (get same_key key e.in_flight)) [
    | inl n ↦ rw (entry, n) (length-replicate {A = Option (List ℕ)} (size key) none)
    | inr (m, g) ↦ rw (entry, g) (get-Agreed key m e.in_flight h g)
  ]

length-fill :
    (now i : ℕ) (chunk : List ℕ) (slot : Option (List ℕ)) (m : InFlightMessage)
    → length (fill now i chunk slot m).received_chunks ≡ length m.received_chunks
unfolding fill
length-fill now i chunk none m = length-set m.received_chunks i (some chunk)
length-fill now i chunk (some x) m = refl

index_inside : (p : MeshPacket) → misnumbered p ≡ false → p.header.chunk_idx < p.header.total_chunks
unfolding misnumbered
index_inside p m = ground arith

module _ (c : Primitives) (is_utf8 : List ℕ → Bool) where
  -- What a packet leaves, if it panics or not, and the map keeps its sizes.
  module _ (size : Key → ℕ) where
    Fair : ChunkEngine × Outcome → Type 0
    Fair r = (is_panicked r.1 ≡ false) × Agreed size r.0.in_flight

    finish-Fair :
        (now : ℕ) (key : Key) (m : InFlightMessage) (e : ChunkEngine)
        → length m.received_chunks ≡ size key
        → Agreed size e.in_flight
        → Fair (finish c is_utf8 now key m e)
    unfolding finish is_panicked Fair
    finish-Fair now key m e l h =
        let held = put-Agreed size key m e.in_flight l h in
        elim (Bool-cases (all is_some m.received_chunks)) [
          | inl a ↦ rw a (refl, remove-Agreed size key (put same_key key m e.in_flight) held)
          | inr a ↦ rw a (refl, held)
        ]

    store-Fair :
        (now : ℕ) (key : Key) (i : ℕ) (chunk : List ℕ) (e : ChunkEngine)
        → i < size key
        → Agreed size e.in_flight
        → Fair (store c is_utf8 now key (size key) i chunk e)
    unfolding store
    store-Fair now key i chunk e lt h =
        let m = entry now key (size key) e in
        let l = length-entry size now key e h in
        elim (Option-cases (get_elem? m.received_chunks i)) [
          | inl n ↦ absurd (omega (arith, leb→le _ _ (get_elem?-past m.received_chunks i n), l))
          | inr (slot, g) ↦
              rw (store, g)
                (finish-Fair now key (fill now i chunk slot m) e
                  (length-fill now i chunk slot m ∙ l) h)
        ]

    settle-Fair :
        (now src : ℕ) (p : MeshPacket) (r : Result (List ℕ)) (e : ChunkEngine)
        → p.header.total_chunks ≡ size (src, p.header.msg_id)
        → p.header.chunk_idx < p.header.total_chunks
        → Agreed size e.in_flight
        → Fair (elim r as (λ _. ChunkEngine × Outcome) [
          | err x ↦ (e, returned (err x))
          | ok chunk ↦
              store c is_utf8 now
                (src, p.header.msg_id)
                p.header.total_chunks
                p.header.chunk_idx
                chunk
                e
        ])
    unfolding Fair is_panicked
    settle-Fair now src p (err x) e t lt h = (refl, h)
    settle-Fair now src p (ok chunk) e t lt h =
        let key : Key = (src, p.header.msg_id) in
        subst (λ n. Fair (store c is_utf8 now key n p.header.chunk_idx chunk e)) (sym t)
          (store-Fair now key p.header.chunk_idx chunk e (omega (arith, lt, t)) h)

    admit-Fair :
        (now src : ℕ) (p : MeshPacket) (master : List ℕ) (e : ChunkEngine)
        → p.header.total_chunks ≡ size (src, p.header.msg_id)
        → misnumbered p ≡ false
        → Agreed size e.in_flight
        → Fair (admit c is_utf8 now src p master e)
    unfolding admit
    admit-Fair now src p master e t m h =
        let id = p.header.msg_id in
        settle-Fair now src p
          (decrypt_chunk c (derive_sender_subkey c master src) id p.header.chunk_idx id p.payload)
          (admitted src (src, id) e) t (index_inside p m) (admitted-Agreed size src (src, id) e h)

    ingest_packet-Fair :
        (now src : ℕ) (p : MeshPacket) (master : List ℕ) (e : ChunkEngine)
        → p.header.total_chunks ≡ size (src, p.header.msg_id)
        → Agreed size e.in_flight
        → Fair (ingest_packet c is_utf8 now src p master e)
    unfolding purge_expired Fair is_panicked
    ingest_packet-Fair now src p master e t h =
        let fresh =
          retain-Agreed size (λ m. within reassembly_timeout now m.1.last_received) e.in_flight h in
        elim (ingest_packet-cases c is_utf8 now src p master e) [
          | inl (m, a) ↦ rw a (refl, fresh)
          | inr (inl (m, g, a)) ↦ rw a (refl, fresh)
          | inr (inr (m, g, a)) ↦
              subst Fair (sym a) (admit-Fair now src p master (purge_expired now e) t m fresh)
        ]

  -- The outcomes of packets that arrive one after the other, each at a time and from a sender.
  unfoldable pub outcomes : List ℕ → List (ℕ × (ℕ × MeshPacket)) → ChunkEngine → List Outcome
  outcomes master [] e = []
  outcomes master ((now, (src, p)) ∷ arrivals) e =
      let r = ingest_packet c is_utf8 now src p master e in r.1 ∷ outcomes master arrivals r.0

  outcomes-Agreed :
      (size : Key → ℕ) (master : List ℕ) (arrivals : List (ℕ × (ℕ × MeshPacket))) (e : ChunkEngine)
      → All (IsSized size) arrivals
      → Agreed size e.in_flight
      → All (λ o. is_panicked o ≡ false) (outcomes master arrivals e)
  unfolding outcomes Fair
  outcomes-Agreed size master [] e a h = tt
  outcomes-Agreed size master ((now, (src, p)) ∷ arrivals) e a h =
      let (quiet, h') = ingest_packet-Fair size now src p master e a.0 h in
      (quiet, outcomes-Agreed size master arrivals _ a.1 h')

  -- An engine never panics, from its start on, whatever packets arrive at whatever times from whatever
  -- senders, forged, damaged, repeated and with wrong indexes among them, as long as all packets under one
  -- sender and message id claim one number of chunks.
  pub outcomes-returned :
      (size : Key → ℕ) (master : List ℕ) (arrivals : List (ℕ × (ℕ × MeshPacket)))
      → All (IsSized size) arrivals
      → All (λ o. is_panicked o ≡ false) (outcomes master arrivals new_engine)
  unfolding new_engine
  outcomes-returned size master arrivals a = outcomes-Agreed size master arrivals new_engine a tt
