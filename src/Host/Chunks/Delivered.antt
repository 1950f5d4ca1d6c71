-- ===== src/Host/Chunks/Delivered.antt =====
-- From the sender's text to the receiver's: the text is delivered once when every packet has arrived.
use gibberish.Prelude.{
  ℕ, zero, suc, ◌+◌, ◌<◌, ◌≡◌, ◌≢◌, ◌⊎◌, inl, inr, refl, ap, ap₂, ◌∙◌, sym, Bool, true, false, ◌||◌,
  none, some, List, [], ◌∷◌, length, get_elem?, get_or, set, all, replicate, arith, Bool-cases,
  ◌==◌, subst, map, All, length-set, get_or-set_self, get_or-set_ne, ==→eq, length-replicate,
}
use gibberish.Protocol.Packet.{MeshPacket}
use gibberish.Crypto.{Primitives, IsPrimitives, Result, ok, err, derive_sender_subkey}
use gibberish.Host.Nonce.{NonceManager, World, allocate_msg}
use gibberish.Host.Chunks.Engine.{ChunkEngine}
use gibberish.Host.Chunks.Send.{num_chunks, message_id, fragment_and_encrypt}
use gibberish.Host.Chunks.Receive.{Outcome, panicked, returned, trim_nulls}
use gibberish.Host.Chunks.Fragments.{IsFragment, AreFragments, fragment_and_encrypt-AreFragments}
use gibberish.Host.Chunks.Slots.{id_Bool}
use gibberish.Host.Chunks.Reassembly.{Prompt}
use gibberish.Host.Chunks.Arrival.{
  reference, receive_all, IsArrival, IsNew, index, receive_all-reference,
}

-- The texts among the answers.
unfoldable pub deliveries : List Outcome → List (List ℕ)
deliveries [] = []
deliveries (panicked ∷ os) = deliveries os
deliveries (returned (err e) ∷ os) = deliveries os
deliveries (returned (ok none) ∷ os) = deliveries os
deliveries (returned (ok (some text)) ∷ os) = text ∷ deliveries os

unfoldable pub occurs : ℕ → List ℕ → Bool
occurs i [] = false
occurs i (j ∷ order) = i == j || occurs i order

deliveries-ignored : (order : List ℕ) → deliveries (map (λ _. returned (ok none)) order) ≡ []
unfolding deliveries
deliveries-ignored [] = refl
deliveries-ignored (i ∷ order) = deliveries-ignored order

all-seen :
    (seen : List Bool)
    → ((i : ℕ) → i < length seen → get_or seen i false ≡ true)
    → all id_Bool seen ≡ true
all-seen [] h = refl
all-seen (true ∷ seen) h = all-seen seen (λ i l. h (suc i) (omega arith))
all-seen (false ∷ seen) h = h 0 (omega arith)

-- A chunk that has not arrived when `j` does is still to come.
pending :
    (seen : List Bool) (i j : ℕ) (order : List ℕ)
    → i < length seen
    → (get_or seen i false ≡ true) ⊎ (occurs i (j ∷ order) ≡ true)
    → (get_or (set seen j true) i false ≡ true) ⊎ (occurs i order ≡ true)
unfolding occurs
pending seen i j order l h = elim (Bool-cases (i == j)) [
  | inl e ↦
      let same = ==→eq i j e in
      inl (
        subst (λ k. get_or (set seen k true) i false ≡ true) same
          (get_or-set_self seen i true false l))
  | inr ne ↦
      let kept = get_or-set_ne seen j i true false (λ e. differ e ne) in
      elim h [ inl g ↦ inl (kept ∙ g) | inr o ↦ inr (ground arith) ]
]
  where
    differ : j ≡ i → (i == j) ≡ false → ⊥
    differ e ne = ground arith

occurs-nil :
    (seen : List Bool) (i : ℕ)
    → (get_or seen i false ≡ true) ⊎ (occurs i [] ≡ true)
    → get_or seen i false ≡ true
unfolding occurs
occurs-nil seen i (inl g) = g
occurs-nil seen i (inr o) = absurd (ground arith)

-- When every chunk that is missing is still to come, the text is delivered once.
pub reference-delivers :
    (text : List ℕ) (seen : List Bool) (order : List ℕ)
    → all id_Bool seen ≡ false
    → ((i : ℕ) → i < length seen → (get_or seen i false ≡ true) ⊎ (occurs i order ≡ true))
    → deliveries (reference text seen order) ≡ text ∷ []
unfolding reference deliveries
reference-delivers text seen [] a h =
    absurd (ground (arith, all-seen seen (λ i l. occurs-nil seen i (h i l))))
reference-delivers text seen (j ∷ order) a h = elim (Bool-cases (all id_Bool (set seen j true))) [
  | inl full ↦ rw full (ap (λ ts. text ∷ ts) (deliveries-ignored order))
  | inr part ↦ rw part (
      reference-delivers text (set seen j true) order part (λ i l.
        pending seen i j order (omega (arith, length-set seen j true))
          (h i (omega (arith, length-set seen j true)))))
]

-- The packets in the order in which they arrive: each turn is a time and the place of a packet.
unfoldable pub arrivals : List MeshPacket → List (ℕ × ℕ) → List (ℕ × MeshPacket)
arrivals ps [] = []
arrivals ps ((now, i) ∷ order) = elim (get_elem? ps i) [
  | none ↦ arrivals ps order
  | some p ↦ (now, p) ∷ arrivals ps order
]

AreFragments-get_elem? :
    (c : Primitives) (key : List ℕ) (msg_id : ℕ) (text : List ℕ) (k i : ℕ) (ps : List MeshPacket)
    → AreFragments c key msg_id text k ps
    → i < length ps
    → (p : MeshPacket) × (get_elem? ps i ≡ some p)
      × (p.header.chunk_idx ≡ k + i)
      × IsFragment c key msg_id text p
AreFragments-get_elem? c key msg_id text k i [] fs l = absurd (omega arith)
AreFragments-get_elem? c key msg_id text k zero (p ∷ ps) (e, f, fs) l =
    (p, refl, omega (arith, e), f)
AreFragments-get_elem? c key msg_id text k (suc i) (p ∷ ps) (e, f, fs) l =
    let (q, g, e', f') = AreFragments-get_elem? c key msg_id text (suc k) i ps fs (omega arith) in
    (q, g, omega (arith, e'), f')

-- The time is early enough and the place is one of the packets.
unfoldable pub IsTurn : ℕ → ℕ → ℕ × ℕ → Type 0
IsTurn start count (now, i) = Prompt start now × (i < count)

abbrev pub place : ℕ × ℕ → ℕ
place (now, i) = i

module _ (c : Primitives) (is_utf8 : List ℕ → Bool) (master : List ℕ) (src : ℕ) where
  pub arrivals-IsArrival :
      (msg_id start : ℕ) (text : List ℕ) (ps : List MeshPacket) (order : List (ℕ × ℕ))
      → AreFragments c (derive_sender_subkey c master src) msg_id text 0 ps
      → All (IsTurn start (length ps)) order
      → All (IsArrival c is_utf8 master src msg_id text start) (arrivals ps order)
        × (map index (arrivals ps order) ≡ map place order)
  unfolding arrivals IsArrival IsTurn
  arrivals-IsArrival msg_id start text ps [] fs h = (tt, refl)
  arrivals-IsArrival msg_id start text ps ((now, i) ∷ order) fs ((w, l), later) =
      let (p, g, e, f) =
        AreFragments-get_elem? c (derive_sender_subkey c master src) msg_id text 0 i ps fs l in
      let (a, n) = arrivals-IsArrival msg_id start text ps order fs later in
      let at : p.header.chunk_idx ≡ i = omega (arith, e) in
      rw (arrivals, g) (((w, f), a), ap₂ (λ x xs. x ∷ xs) at n)

all-replicate-false : (n : ℕ) → n ≢ 0 → all id_Bool (replicate n false) ≡ false
all-replicate-false zero h = absurd (h refl)
all-replicate-false (suc n) h = refl

sent : Result (List MeshPacket) → List MeshPacket
sent (ok ps) = ps
sent (err e) = []

-- From end to end: a text of 1 to 255 chunks that is valid UTF-8 and does not end in a zero byte is
-- fragmented and encrypted, and its packets arrive in any order, each at least once and perhaps more
-- often, within ten seconds, at an engine that has nothing of the message but may hold others: the
-- receiver delivers exactly that text, once, and no other.
pub delivered_once :
    (c : Primitives) (v : IsPrimitives c) (is_utf8 : List ℕ → Bool) (text : List ℕ)
    → (swarm_tag node_id start epoch counter : ℕ) (master : List ℕ) (written : Bool)
    → (mgr : NonceManager) (w : World) (ps : List MeshPacket) (order : List (ℕ × ℕ))
      (e : ChunkEngine)
    → length text ≢ 0
    → num_chunks text < 256
    → is_utf8 text ≡ true
    → trim_nulls text ≡ text
    → (allocate_msg written mgr w).1 ≡ some (epoch, counter)
    → (fragment_and_encrypt c text swarm_tag node_id master written mgr w).1 ≡ ok ps
    → All (IsTurn start (length ps)) order
    → ((i : ℕ) → i < length ps → occurs i (map place order) ≡ true)
    → IsNew (node_id, message_id node_id counter) e
    → deliveries (receive_all c is_utf8 master node_id (arrivals ps order) e) ≡ text ∷ []
unfolding num_chunks sent
delivered_once c v is_utf8 text swarm_tag node_id start epoch counter master written mgr w ps order
      e h n u t a r o cover k =
    let (ps', r', l, fs) =
      fragment_and_encrypt-AreFragments c v text swarm_tag node_id master written mgr w epoch
        counter h n a in
    let same : ps' ≡ ps = ap sent (sym r' ∙ r) in
    let id = message_id node_id counter in
    let fs' = subst (AreFragments c (derive_sender_subkey c master node_id) id text 0) same fs in
    let l' : length ps ≡ num_chunks text = ap length (sym same) ∙ l in
    let (as', at) = arrivals-IsArrival c is_utf8 master node_id id start text ps order fs' o in
    let none_seen = length-replicate (num_chunks text) false in
    ap deliveries (
      receive_all-reference c is_utf8 master node_id id start text (arrivals ps order) e u t n as' k
      ∙ ap (reference text (replicate (num_chunks text) false)) at)
    ∙ reference-delivers text (replicate (num_chunks text) false) (map place order)
        (all-replicate-false (num_chunks text) (omega (arith, h)))
        (λ i b. inr (cover i (omega (arith, none_seen, l'))))
