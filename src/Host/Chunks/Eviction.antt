-- ===== src/Host/Chunks/Eviction.antt =====
-- How room is made for a new message: what is evicted, and when.
use gibberish.Prelude.{
  ℕ, ◌≤◌, ◌<◌, ◌≡◌, ◌⊎◌, inl, inr, refl, Bool, true, false, List, [], ◌∷◌, length, All, arith,
  Bool-cases, if◌then◌else◌, leb, leb→le, ltb, ltb→lt, ltb_false→le, ◌==◌, lt→leb_false, sym, subst,
}
use gibberish.Prelude.HashMap.{HashMap, contains_key, remove, retain}
use gibberish.Host.Chunks.Engine.{
  ChunkEngine, InFlightMessage, Key, same_key, max_per_sender_in_flight, max_global_in_flight,
}
use gibberish.Host.Chunks.Receive.{from_sender, oldest, evict_oldest, make_room, admitted}

pub data Among {A : Type 0} : A → List A → Type 0 where
  here : {x : A} {xs : List A} → Among x (x ∷ xs)
  there : {x y : A} {xs : List A} → Among x xs → Among x (y ∷ xs)

-- The key of a message that none of the others was received before.
pub record IsOldest (k : Key) (candidates : HashMap Key InFlightMessage) : Type 0 where
  pub message : InFlightMessage
  pub there_is : Among (k, message) candidates
  pub first : All (λ e. message.first_received ≤ e.1.first_received) candidates

-- Nothing is evicted while the candidates are fewer than the limit; otherwise the oldest of them is.
unfoldable pub Evicted :
    ℕ
    → HashMap Key InFlightMessage
    → HashMap Key InFlightMessage
    → HashMap Key InFlightMessage
    → Type 0
Evicted limit candidates m m' =
    ((length candidates < limit) × (m' ≡ m))
    ⊎ ((limit ≤ length candidates)
        × ((k : Key) × IsOldest k candidates × (m' ≡ remove same_key k m)))

-- First the sender's own messages are held against 2, then all of them against 16.
unfoldable pub MadeRoom : ℕ → HashMap Key InFlightMessage → HashMap Key InFlightMessage → Type 0
MadeRoom src m m' =
    (own : HashMap Key InFlightMessage) × Evicted 2 (retain (λ e. e.0.0 == src) m) m own
    × Evicted 16 own own m'

abbrev IsFirst : Key × InFlightMessage → HashMap Key InFlightMessage → Type 0
IsFirst r m = Among r m × All (λ e. r.1.first_received ≤ e.1.first_received) m

oldest-newer :
    (best e : Key × InFlightMessage) (m : HashMap Key InFlightMessage)
    → ltb e.1.first_received best.1.first_received ≡ true
    → oldest best (e ∷ m) ≡ oldest e m
unfolding oldest
oldest-newer best e m t = rw t refl

oldest-older :
    (best e : Key × InFlightMessage) (m : HashMap Key InFlightMessage)
    → ltb e.1.first_received best.1.first_received ≡ false
    → oldest best (e ∷ m) ≡ oldest best m
unfolding oldest
oldest-older best e m t = rw t refl

behind :
    {x b y : Key × InFlightMessage} {xs : HashMap Key InFlightMessage}
    → Among x (b ∷ xs)
    → Among x (b ∷ y ∷ xs)
behind here = here
behind (there a) = there (there a)

oldest_lem :
    (best : Key × InFlightMessage) (m : HashMap Key InFlightMessage)
    → IsFirst (oldest best m) (best ∷ m)
unfolding oldest
oldest_lem best [] = (here, (omega arith, tt))
oldest_lem best (e ∷ m) = elim (Bool-cases (ltb e.1.first_received best.1.first_received)) [
  | inl t ↦
      let (a, f) = oldest_lem e m in
      let sooner = ltb→lt e.1.first_received best.1.first_received t in
      subst (λ r. IsFirst r (best ∷ e ∷ m)) (sym (oldest-newer best e m t))
        (there a, (omega (arith, f.0, sooner), f))
  | inr t ↦
      let (a, f) = oldest_lem best m in
      let later = ltb_false→le e.1.first_received best.1.first_received t in
      subst (λ r. IsFirst r (best ∷ e ∷ m)) (sym (oldest-older best e m t))
        (behind a, (f.0, (omega (arith, f.0, later), f.1)))
]

evict_oldest-Evicted :
    (limit : ℕ) (candidates m : HashMap Key InFlightMessage)
    → 0 < limit
    → Evicted limit candidates m
        (if leb limit (length candidates) then evict_oldest candidates m else m)
unfolding Evicted evict_oldest
evict_oldest-Evicted limit [] m h = rw (lt→leb_false limit 0 h) (inl (h, refl))
evict_oldest-Evicted limit (e ∷ rest) m h = elim (Bool-cases (leb limit (length (e ∷ rest)))) [
  | inr l ↦ rw l (inl (ground arith, refl))
  | inl l ↦
      let (a, f) = oldest_lem e rest in
      rw l (
        inr (
          leb→le limit (length (e ∷ rest)) l,
          (
            (oldest e rest).0,
            record { message = (oldest e rest).1; there_is = a; first = f },
            refl,
          ),
        ))
]

make_room-MadeRoom : (src : ℕ) (m : HashMap Key InFlightMessage) → MadeRoom src m (make_room src m)
unfolding MadeRoom make_room from_sender
make_room-MadeRoom src m =
    let own = from_sender src m in
    let m' = if leb max_per_sender_in_flight (length own) then evict_oldest own m else m in
    (m', evict_oldest-Evicted 2 own m (omega arith), evict_oldest-Evicted 16 m' m' (omega arith))

-- A message that is in flight needs no room; for another one room is made.
unfoldable pub Admitted :
    ℕ → Key → HashMap Key InFlightMessage → HashMap Key InFlightMessage → Type 0
Admitted src key m m' =
    ((contains_key same_key key m ≡ true) × (m' ≡ m))
    ⊎ ((contains_key same_key key m ≡ false) × MadeRoom src m m')

pub admitted-Admitted :
    (src : ℕ) (key : Key) (e : ChunkEngine)
    → Admitted src key e.in_flight (admitted src key e).in_flight
unfolding Admitted admitted
admitted-Admitted src key e = elim (Bool-cases (contains_key same_key key e.in_flight)) [
  | inl k ↦ rw k (inl (refl, refl))
  | inr k ↦ rw k (inr (refl, make_room-MadeRoom src e.in_flight))
]

-- The other maps stay.
pub admitted-caches :
    (src : ℕ) (key : Key) (e : ChunkEngine)
    → ((admitted src key e).completed_cache ≡ e.completed_cache)
      × ((admitted src key e).outbox_cache ≡ e.outbox_cache)
unfolding admitted
admitted-caches src key e = elim (Bool-cases (contains_key same_key key e.in_flight)) [
  | inl k ↦ rw k (refl, refl)
  | inr k ↦ rw k (refl, refl)
]

-- What is left of a map's entries, unchanged and in their order.
pub data IsRest {A : Type 0} : List A → List A → Type 0 where
  nothing : IsRest [] []
  kept : {x : A} {xs ys : List A} → IsRest xs ys → IsRest (x ∷ xs) (x ∷ ys)
  dropped : {x : A} {xs ys : List A} → IsRest xs ys → IsRest xs (x ∷ ys)

pub IsRest-refl : {A : Type 0} (xs : List A) → IsRest xs xs
IsRest-refl [] = nothing
IsRest-refl (x ∷ xs) = kept (IsRest-refl xs)

-- A filter leaves less.
pub retain-IsRest :
    {K V : Type 0} (keep : K × V → Bool) (xs ys : HashMap K V)
    → IsRest xs ys
    → IsRest (retain keep xs) ys
unfolding retain
retain-IsRest keep xs ys nothing = nothing
retain-IsRest keep xs ys (dropped {ys = zs} p) = dropped (retain-IsRest keep xs zs p)
retain-IsRest keep xs ys (kept {x = e} {xs = xs'} {ys = zs} p) =
    let rest = retain-IsRest keep xs' zs p in
    elim (Bool-cases (keep e)) [ inl k ↦ rw k (kept rest) | inr k ↦ rw k (dropped rest) ]

if_evicted-IsRest :
    (b : Bool) (candidates xs ys : HashMap Key InFlightMessage)
    → IsRest xs ys
    → IsRest (if b then evict_oldest candidates xs else xs) ys
unfolding evict_oldest remove
if_evicted-IsRest false candidates xs ys p = p
if_evicted-IsRest true [] xs ys p = p
if_evicted-IsRest true (e ∷ candidates) xs ys p = retain-IsRest _ xs ys p

pub admitted-IsRest :
    (src : ℕ) (key : Key) (e : ChunkEngine) (ys : HashMap Key InFlightMessage)
    → IsRest e.in_flight ys
    → IsRest (admitted src key e).in_flight ys
unfolding admitted make_room
admitted-IsRest src key e ys p =
    let own = from_sender src e.in_flight in
    let crowded = leb max_per_sender_in_flight (length own) in
    let m = if crowded then evict_oldest own e.in_flight else e.in_flight in
    elim (Bool-cases (contains_key same_key key e.in_flight)) [
      | inl k ↦ rw k p
      | inr k ↦ rw k (
          if_evicted-IsRest (leb max_global_in_flight (length m)) m m ys
            (if_evicted-IsRest crowded own e.in_flight ys p))
    ]

pub All-IsRest : {A : Type 0} (P : A → Type 0) (xs ys : List A) → IsRest xs ys → All P ys → All P xs
All-IsRest P xs ys nothing h = tt
All-IsRest P xs ys (kept {xs = xs'} {ys = ys'} r) h = (h.0, All-IsRest P xs' ys' r h.1)
All-IsRest P xs ys (dropped {ys = ys'} r) h = All-IsRest P xs ys' r h.1
