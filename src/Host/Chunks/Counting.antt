-- ===== src/Host/Chunks/Counting.antt =====
-- How many entries the maps have, in all and of each sender, after an eviction and a new entry.
use gibberish.Prelude.{
  ℕ, ◌+◌, ◌≤◌, ◌<◌, ◌≡◌, ◌≢◌, inl, inr, refl, ap, ◌∙◌, sym, Bool, true, false, not, [], ◌∷◌, length,
  arith, Bool-cases, if◌then◌else◌, ltb, leb, ◌==◌, subst, leb→le, ==→eq,
}
use gibberish.Prelude.HashMap.{
  HashMap, get, contains_key, retain, remove, put, length-put, length-retain, retain-retain,
  length-remove,
}
use gibberish.Host.Chunks.Engine.{
  InFlightMessage, Key, same_key, same_key_refl, max_global_in_flight, max_per_sender_in_flight,
}
use gibberish.Host.Chunks.Receive.{from_sender, oldest, evict_oldest, make_room}

-- The map, and its part of each sender, have these lengths at most.
unfoldable pub Within : ℕ → (ℕ → ℕ) → HashMap Key InFlightMessage → Type 0
Within total per_sender m =
    (length m ≤ total) × ((src : ℕ) → length (from_sender src m) ≤ per_sender src)

pub retain-Within :
    (total : ℕ) (per_sender : ℕ → ℕ) (keep : Key × InFlightMessage → Bool)
    → (m : HashMap Key InFlightMessage) → Within total per_sender m
    → Within total per_sender (retain keep m)
unfolding Within from_sender
retain-Within total per_sender keep m (t, s) =
    (omega (arith, t, length-retain keep m), λ src. own src (s src))
  where
    own :
        (src : ℕ)
        → length (from_sender src m) ≤ per_sender src
        → length (from_sender src (retain keep m)) ≤ per_sender src
    own src h =
        let swap = ap length (retain-retain (λ e. e.0.0 == src) keep m) in
        let fewer = length-retain keep (from_sender src m) in omega arith

oldest-contains_key :
    (best : Key × InFlightMessage) (m : HashMap Key InFlightMessage)
    → contains_key same_key (oldest best m).0 (best ∷ m) ≡ true
unfolding oldest contains_key get
oldest-contains_key best [] = ground (arith, same_key_refl best.0)
oldest-contains_key best (e ∷ m) =
    elim (Bool-cases (ltb e.1.first_received best.1.first_received)) [
      | inl t ↦ ground (arith, oldest-contains_key e m)
      | inr f ↦ ground (arith, oldest-contains_key best m)
    ]

-- An eviction takes an entry off the candidates' part of the map.
evict_oldest-fewer :
    (keep : Key × InFlightMessage → Bool) (m : HashMap Key InFlightMessage)
    → length (retain keep m) ≢ 0
    → length (retain keep (evict_oldest (retain keep m) m)) < length (retain keep m)
unfolding evict_oldest remove
evict_oldest-fewer keep m h = go (retain keep m) refl
  where
    go :
        (own : HashMap Key InFlightMessage)
        → retain keep m ≡ own
        → length (retain keep (evict_oldest own m)) < length (retain keep m)
    go [] e = absurd (h (ap length e))
    go (x ∷ own) e =
        let k = (oldest x own).0 in
        let swap : retain keep (evict_oldest (x ∷ own) m) ≡ remove same_key k (retain keep m) =
          retain-retain keep (λ y. not (same_key k y.0)) m in
        let found : contains_key same_key k (retain keep m) ≡ true =
          ap (contains_key same_key k) e ∙ oldest-contains_key x own in
        let fewer = length-remove same_key same_key_refl k (retain keep m) found in
        subst (λ r. length r < length (retain keep m)) (sym swap) fewer

-- A new entry for a key that is there takes no more room.
length-put_known :
    (k : Key) (v : InFlightMessage) (m : HashMap Key InFlightMessage)
    → contains_key same_key k m ≡ true
    → length (put same_key k v m) ≡ length m
unfolding contains_key get put
length-put_known k v [] c = absurd (ground arith)
length-put_known k v (e ∷ m) c = ground (arith, length-put_known k v m)

own-put_known :
    (src : ℕ) (k : Key) (v : InFlightMessage) (m : HashMap Key InFlightMessage)
    → contains_key same_key k m ≡ true
    → length (from_sender src (put same_key k v m)) ≡ length (from_sender src m)
unfolding contains_key get put from_sender retain same_key
own-put_known src k v [] c = absurd (ground arith)
own-put_known src k v (e ∷ m) c = ground (arith, own-put_known src k v m)

own-put_new :
    (src : ℕ) (k : Key) (v : InFlightMessage) (m : HashMap Key InFlightMessage)
    → length (from_sender src (put same_key k v m))
      ≤ length (from_sender src m) + (if k.0 == src then 1 else 0)
unfolding put from_sender retain same_key
own-put_new src k v [] = ground arith
own-put_new src k v (e ∷ m) = ground (arith, own-put_new src k v m)

evict_oldest-all :
    (m : HashMap Key InFlightMessage) → length m ≢ 0 → length (evict_oldest m m) < length m
unfolding evict_oldest
evict_oldest-all [] h = absurd (h refl)
evict_oldest-all (e ∷ m) h =
    length-remove same_key same_key_refl (oldest e m).0 (e ∷ m) (oldest-contains_key e m)

if_evicted-Within :
    (b : Bool) (total : ℕ) (per_sender : ℕ → ℕ) (candidates m : HashMap Key InFlightMessage)
    → Within total per_sender m
    → Within total per_sender (if b then evict_oldest candidates m else m)
unfolding evict_oldest remove
if_evicted-Within false total per_sender candidates m h = h
if_evicted-Within true total per_sender [] m h = h
if_evicted-Within true total per_sender (e ∷ candidates) m h =
    retain-Within total per_sender (λ y. not (same_key (oldest e candidates).0 y.0)) m h

abbrev pub limit : ℕ → ℕ
limit src = max_per_sender_in_flight

-- Room for one more message of a sender.
abbrev pub room : ℕ → ℕ → ℕ
room src s = if src == s then 1 else 2

own-fewer :
    (src : ℕ) (m : HashMap Key InFlightMessage)
    → Within max_global_in_flight limit m
    → length (
        from_sender src (
          if leb max_per_sender_in_flight (length (from_sender src m))
          then evict_oldest (from_sender src m) m
          else m))
      ≤ 1
unfolding Within from_sender
own-fewer src m (t, s) =
    let keep : Key × InFlightMessage → Bool = λ e. e.0.0 == src in
    let fewer = evict_oldest-fewer keep m in
    elim (Bool-cases (leb max_per_sender_in_flight (length (retain keep m)))) [
      | inl b ↦
          rw b (omega (arith, s src, fewer (omega (arith, leb→le max_per_sender_in_flight _ b))))
      | inr b ↦ rw b (ground arith)
    ]

make_room-own :
    (src : ℕ) (m : HashMap Key InFlightMessage)
    → Within max_global_in_flight limit m
    → Within max_global_in_flight (room src) (
        if leb max_per_sender_in_flight (length (from_sender src m))
        then evict_oldest (from_sender src m) m
        else m)
unfolding Within
make_room-own src m h =
    let own = from_sender src m in
    let fewer = own-fewer src m h in
    let (t, s) =
      if_evicted-Within (leb max_per_sender_in_flight (length own)) max_global_in_flight limit own m
        h in
    (
      t,
      λ x. elim (Bool-cases (src == x)) [
        | inl e ↦ rw e (
            subst
              (λ y.
                length (
                  from_sender y
                    (if leb max_per_sender_in_flight (length own) then evict_oldest own m else m))
                ≤ 1)
              (==→eq src x e) fewer)
        | inr e ↦ rw e (s x)
      ],
    )

all-fewer :
    (src : ℕ) (m : HashMap Key InFlightMessage)
    → Within max_global_in_flight (room src) m
    → Within 15 (room src) (if leb max_global_in_flight (length m) then evict_oldest m m else m)
unfolding Within
all-fewer src m h =
    let (t, s) =
      if_evicted-Within (leb max_global_in_flight (length m)) max_global_in_flight (room src) m m
        h in
    (
      elim (Bool-cases (leb max_global_in_flight (length m))) [
        | inl b ↦ rw b (
            omega (
              arith,
              h.0,
              evict_oldest-all m (omega (arith, leb→le max_global_in_flight (length m) b)),
            ))
        | inr b ↦ rw b (ground arith)
      ],
      s,
    )

pub make_room-Within :
    (src : ℕ) (m : HashMap Key InFlightMessage)
    → Within max_global_in_flight limit m
    → Within 15 (room src) (make_room src m)
unfolding make_room
make_room-Within src m h =
    let own = from_sender src m in
    all-fewer src (if leb max_per_sender_in_flight (length own) then evict_oldest own m else m)
      (make_room-own src m h)

pub put-Within :
    (src id : ℕ) (v : InFlightMessage) (m : HashMap Key InFlightMessage)
    → Within 15 (room src) m
    → Within max_global_in_flight limit (put same_key (src, id) v m)
unfolding Within
put-Within src id v m (t, s) = (
  omega (arith, t, length-put same_key same_key_refl (src, id) v m),
  λ x. ground (arith, s x, own-put_new x (src, id) v m),
)

pub put_known-Within :
    (k : Key) (v : InFlightMessage) (m : HashMap Key InFlightMessage)
    → contains_key same_key k m ≡ true
    → Within max_global_in_flight limit m
    → Within max_global_in_flight limit (put same_key k v m)
unfolding Within
put_known-Within k v m c (t, s) =
    (omega (arith, t, length-put_known k v m c), λ x. omega (arith, s x, own-put_known x k v m c))
