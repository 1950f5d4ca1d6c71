-- ===== src/Host/Chunks/Arrival.antt =====
-- Whole runs: the packets of one text arrive in any order, some of them several times.
use gibberish.Prelude.{
  ℕ, ◌<◌, ◌≡◌, inl, inr, refl, ap, ap₂, ◌∙◌, Bool, true, false, none, some, List, [], ◌∷◌, set, all,
  replicate, Bool-cases, if◌then◌else◌, map, All, length-replicate,
}
use gibberish.Prelude.HashMap.{get}
use gibberish.Protocol.Packet.{MeshPacket}
use gibberish.Crypto.{Primitives, ok, derive_sender_subkey}
use gibberish.Host.Chunks.Engine.{ChunkEngine, Key, same_key}
use gibberish.Host.Chunks.Send.{num_chunks}
use gibberish.Host.Chunks.Receive.{Outcome, returned, trim_nulls, ingest_packet}
use gibberish.Host.Chunks.Fragments.{IsFragment}
use gibberish.Host.Chunks.Slots.{id_Bool}
use gibberish.Host.Chunks.Store.{Collecting, Completed, answer, Next-Completed, Next-Collecting}
use gibberish.Host.Chunks.Reassembly.{Prompt, ingest_packet-Next, ingest_packet-Completed}

-- The receiver as it is meant: it notes which chunks have arrived, hands the text on when the last one
-- does, and ignores what comes after.
unfoldable pub reference : List ℕ → List Bool → List ℕ → List Outcome
reference text seen [] = []
reference text seen (i ∷ order) =
    let seen' = set seen i true in
    let rest = reference text seen' order in
    if all id_Bool seen'
    then returned (ok (some text)) ∷ map (λ _. returned (ok none)) order
    else returned (ok none) ∷ rest

-- The engine has nothing of the message.
unfoldable pub IsNew : Key → ChunkEngine → Type 0
IsNew key e = (get same_key key e.completed_cache ≡ none) × (get same_key key e.in_flight ≡ none)

abbrev pub index : ℕ × MeshPacket → ℕ
index (now, p) = p.header.chunk_idx

map-index :
    (arrivals : List (ℕ × MeshPacket))
    → map (λ _. returned (ok none)) arrivals ≡ map (λ _. returned (ok none)) (map index arrivals)
map-index [] = refl
map-index (a ∷ arrivals) = ap (λ os. returned (ok none) ∷ os) (map-index arrivals)

module _ (c : Primitives) (is_utf8 : List ℕ → Bool) (master : List ℕ) (src : ℕ) where
  -- The answers to packets that arrive one after the other, each with its time.
  unfoldable pub receive_all : List (ℕ × MeshPacket) → ChunkEngine → List Outcome
  receive_all [] e = []
  receive_all ((now, p) ∷ arrivals) e =
      let r = ingest_packet c is_utf8 now src p master e in r.1 ∷ receive_all arrivals r.0

  -- A fragment of the text that arrives in time.
  unfoldable pub IsArrival : ℕ → List ℕ → ℕ → ℕ × MeshPacket → Type 0
  IsArrival msg_id text start (now, p) =
      Prompt start now × IsFragment c (derive_sender_subkey c master src) msg_id text p

  receive_all-Completed :
      (msg_id start : ℕ) (text : List ℕ) (arrivals : List (ℕ × MeshPacket)) (e : ChunkEngine)
      → num_chunks text < 256
      → All (IsArrival msg_id text start) arrivals
      → Completed (src, msg_id) start e
      → receive_all arrivals e ≡ map (λ _. returned (ok none)) arrivals
  unfolding receive_all IsArrival
  receive_all-Completed msg_id start text [] e n a k = refl
  receive_all-Completed msg_id start text ((now, p) ∷ arrivals) e n ((w, f), later) k =
      let (out, k') =
        ingest_packet-Completed c is_utf8 master src msg_id now start text p e n w f k in
      ap₂ (λ o os. o ∷ os) out
        (receive_all-Completed msg_id start text arrivals
          (ingest_packet c is_utf8 now src p master e).0 n later k')

  receive_all-Collecting :
      (msg_id start : ℕ) (text : List ℕ) (seen : List Bool) (arrivals : List (ℕ × MeshPacket))
      → (e : ChunkEngine) → is_utf8 text ≡ true
      → trim_nulls text ≡ text
      → num_chunks text < 256
      → All (IsArrival msg_id text start) arrivals
      → Collecting (src, msg_id) text start seen e
      → receive_all arrivals e ≡ reference text seen (map index arrivals)
  unfolding receive_all reference IsArrival answer
  receive_all-Collecting msg_id start text seen [] e u t n a k = refl
  receive_all-Collecting msg_id start text seen ((now, p) ∷ arrivals) e u t n ((w, f), later) k =
      let key : Key = (src, msg_id) in
      let seen' = set seen p.header.chunk_idx true in
      let e' = (ingest_packet c is_utf8 now src p master e).0 in
      let (out, next) =
        ingest_packet-Next c is_utf8 master src msg_id now start text seen p e u t n w f k in
      let ih = receive_all-Collecting msg_id start text seen' arrivals e' u t n later in
      elim (Bool-cases (all id_Bool seen')) [
        | inl a ↦
            let done =
              receive_all-Completed msg_id start text arrivals e' n later
                (Next-Completed key text start seen' e' a next) in
            rw a (
              ap₂ (λ o os. o ∷ os) (out ∙ ap (λ b. returned (ok (if b then some text else none))) a)
                (done ∙ map-index arrivals))
        | inr a ↦ rw a (
            ap₂ (λ o os. o ∷ os) (out ∙ ap (λ b. returned (ok (if b then some text else none))) a)
              (ih (Next-Collecting key text start seen' e' a next)))
      ]

  -- Refinement of the simple receiver. Fragments of one text, in any order and any number of times,
  -- all within ten seconds of the start, at an engine that has nothing of the message but may hold
  -- others: the engine answers as the receiver that notes which chunks have arrived. The text has at
  -- most 255 chunks, is valid UTF-8 and does not end in a zero byte; relays may have changed the time
  -- to live and the hops of the packets.
  pub receive_all-reference :
      (msg_id start : ℕ) (text : List ℕ) (arrivals : List (ℕ × MeshPacket)) (e : ChunkEngine)
      → is_utf8 text ≡ true
      → trim_nulls text ≡ text
      → num_chunks text < 256
      → All (IsArrival msg_id text start) arrivals
      → IsNew (src, msg_id) e
      → receive_all arrivals e
        ≡ reference text (replicate (num_chunks text) false) (map index arrivals)
  unfolding IsNew Collecting
  receive_all-reference msg_id start text arrivals e u t n a (c0, g) =
      receive_all-Collecting msg_id start text (replicate (num_chunks text) false) arrivals e u t n
        a (c0, length-replicate (num_chunks text) false, inl (g, refl))
