-- ===== src/Host/Chunks/Store.antt =====
-- A message that is being collected, and what storing one of its chunks does.
use gibberish.Prelude.{
  ℕ, ◌+◌, ◌≤◌, ◌<◌, ◌≡◌, ◌⊎◌, inl, inr, refl, ap, ◌∙◌, sym, Bool, true, false, Option, none, some,
  List, length, get_elem?, set, all, replicate, is_some, arith, Bool-cases, length-set,
  if◌then◌else◌, subst,
}
use gibberish.Prelude.HashMap.{get, get-put_self}
use gibberish.Crypto.{Primitives, ok}
use gibberish.Crypto.RoundTrip.{padded}
use gibberish.Host.Chunks.Engine.{
  ChunkEngine, InFlightMessage, Key, same_key, same_key_refl, new_in_flight,
}
use gibberish.Host.Chunks.Send.{chunk_data, num_chunks}
use gibberish.Host.Chunks.Receive.{
  Outcome, returned, fill, entry, finish, store, trim_nulls, assembled,
}
use gibberish.Host.Chunks.Slots.{
  id_Bool, slots, slots-replicate, all-slots, get_elem?-slots, set-slots, assembled-slots,
}

-- The chunks of a text that are held, all of them received at `start` or later.
unfoldable pub Holds : List ℕ → ℕ → List Bool → InFlightMessage → Type 0
Holds text start seen m = (m.received_chunks ≡ slots text 0 seen) × (start ≤ m.last_received)

-- A message of which the chunks `seen` have arrived, or none yet.
unfoldable pub Collecting : Key → List ℕ → ℕ → List Bool → ChunkEngine → Type 0
Collecting key text start seen e =
    (get same_key key e.completed_cache ≡ none)
    × (length seen ≡ num_chunks text)
    × (((get same_key key e.in_flight ≡ none) × (seen ≡ replicate (num_chunks text) false))
        ⊎ ((m : InFlightMessage) × (get same_key key e.in_flight ≡ some m)
            × Holds text start seen m))

-- A message that was completed at `start` or later.
unfoldable pub Completed : Key → ℕ → ChunkEngine → Type 0
Completed key start e = (t : ℕ) × (get same_key key e.completed_cache ≡ some t) × (start ≤ t)

pub Collecting-count :
    (key : Key) (text : List ℕ) (start : ℕ) (seen : List Bool) (e : ChunkEngine)
    → Collecting key text start seen e
    → (get same_key key e.completed_cache ≡ none) × (length seen ≡ num_chunks text)
unfolding Collecting
Collecting-count key text start seen e k = (k.0, k.1)

entry-Holds :
    (key : Key) (text : List ℕ) (start now : ℕ) (seen : List Bool) (e : ChunkEngine)
    → start ≤ now
    → Collecting key text start seen e
    → Holds text start seen (entry now key (num_chunks text) e)
unfolding Collecting Holds entry new_in_flight
entry-Holds key text start now seen e h (c, n, inl (g, s)) = (
  rw (entry, g) (sym (slots-replicate text 0 (num_chunks text)) ∙ ap (slots text 0) (sym s)),
  rw (entry, g) h,
)
entry-Holds key text start now seen e h (c, n, inr (m, g, (r, l))) =
    (rw (entry, g) r, rw (entry, g) l)

-- Filling the place of a chunk, whether it is empty or not.
fill-Holds :
    (text : List ℕ) (start now j : ℕ) (seen : List Bool) (m : InFlightMessage)
    → start ≤ now
    → j < length seen
    → Holds text start seen m
    → (slot : Option (List ℕ)) × (get_elem? m.received_chunks j ≡ some slot)
      × Holds text start (set seen j true) (fill now j (padded (chunk_data text j)) slot m)
unfolding Holds fill
fill-Holds text start now j seen m h l (r, q) = elim (get_elem?-slots text 0 j seen l) [
  | inl e ↦ (
    none,
    ap (λ s. get_elem? s j) r ∙ e,
    (
      ap (λ s. set s j (some (padded (chunk_data text j)))) r
          ∙ ap (λ k. set (slots text 0 seen) j (some (padded (chunk_data text k)))) zero_plus
          ∙ set-slots text 0 j seen,
      h,
    ),
  )
  | inr (ch, e, same) ↦
      (some ch, ap (λ s. get_elem? s j) r ∙ e, (r ∙ ap (slots text 0) (sym same), q))
]
  where
    zero_plus : j ≡ 0 + j
    zero_plus = omega arith

-- What the receiver is to do when a chunk has arrived: hand the text on if it was the last.
unfoldable pub answer : (List ℕ → Bool) → List ℕ → List Bool → Outcome
answer is_utf8 text seen = returned (ok (if all id_Bool seen then some text else none))

unfoldable pub Next : Key → List ℕ → ℕ → List Bool → ChunkEngine → Type 0
Next key text start seen e =
    if all id_Bool seen then Completed key start e else Collecting key text start seen e

module _ (c : Primitives) (is_utf8 : List ℕ → Bool) (key : Key) (text : List ℕ) where
  finish-Next :
      (start now : ℕ) (seen : List Bool) (m : InFlightMessage) (e : ChunkEngine)
      → is_utf8 text ≡ true
      → trim_nulls text ≡ text
      → start ≤ now
      → length seen ≡ num_chunks text
      → get same_key key e.completed_cache ≡ none
      → Holds text start seen m
      → ((finish c is_utf8 now key m e).1 ≡ answer is_utf8 text seen)
        × Next key text start seen (finish c is_utf8 now key m e).0
  unfolding finish answer Next Collecting Completed Holds
  finish-Next start now seen m e u t h n g (r, l) =
      let full : all is_some m.received_chunks ≡ all id_Bool seen =
        ap (all is_some) r ∙ all-slots text 0 seen in
      elim (Bool-cases (all id_Bool seen)) [
        | inl a ↦
            let whole : trim_nulls (assembled m.received_chunks) ≡ text =
              ap (λ s. trim_nulls (assembled s)) r ∙ assembled-slots text seen a n ∙ t in
            let valid : is_utf8 (trim_nulls (assembled m.received_chunks)) ≡ true =
              ap is_utf8 whole ∙ u in
            rw (full, a)
              (rw (valid, whole)
                (refl, (now, get-put_self same_key same_key_refl key now e.completed_cache, h)))
        | inr a ↦
            rw (full, a)
              (refl, (g, n, inr (m, get-put_self same_key same_key_refl key m e.in_flight, (r, l))))
      ]

  pub store-Next :
      (start now j : ℕ) (seen : List Bool) (e : ChunkEngine)
      → is_utf8 text ≡ true
      → trim_nulls text ≡ text
      → start ≤ now
      → j < num_chunks text
      → Collecting key text start seen e
      → ((store c is_utf8 now key (num_chunks text) j (padded (chunk_data text j)) e).1
          ≡ answer is_utf8 text (set seen j true))
        × Next key text start
            (set seen j true)
            (store c is_utf8 now key (num_chunks text) j (padded (chunk_data text j)) e).0
  unfolding store
  store-Next start now j seen e u t h l k =
      let m = entry now key (num_chunks text) e in
      let (fresh, count) = Collecting-count key text start seen e k in
      let (slot, at, held) =
        fill-Holds text start now j seen m h (omega (arith, count, l))
          (entry-Holds key text start now seen e h k) in
      rw (store, at)
        (finish-Next start now (set seen j true) (fill now j (padded (chunk_data text j)) slot m) e
          u t h (length-set seen j true ∙ count) fresh held)

pub Next-Completed :
    (key : Key) (text : List ℕ) (start : ℕ) (seen : List Bool) (e : ChunkEngine)
    → all id_Bool seen ≡ true
    → Next key text start seen e
    → Completed key start e
unfolding Next
Next-Completed key text start seen e a k =
    subst (λ b. if b then Completed key start e else Collecting key text start seen e) a k

pub Next-Collecting :
    (key : Key) (text : List ℕ) (start : ℕ) (seen : List Bool) (e : ChunkEngine)
    → all id_Bool seen ≡ false
    → Next key text start seen e
    → Collecting key text start seen e
unfolding Next
Next-Collecting key text start seen e a k =
    subst (λ b. if b then Completed key start e else Collecting key text start seen e) a k
