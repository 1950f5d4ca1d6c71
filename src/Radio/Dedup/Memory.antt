-- ===== src/Radio/Dedup/Memory.antt =====
-- How long the filter remembers a packet.
use gibberish.Prelude.{
  ℕ, zero, suc, ◌+◌, ◌%◌, ◌<◌, ◌≤◌, ◌≡◌, ◌⊎◌, inl, inr, refl, ◌∙◌, true, List, [], ◌∷◌, length, set,
  leb, arith, Bool-cases, length-replicate, length-set, ap, leb→le,
}
use gibberish.Radio.Dedup.{
  SlidingBloomFilter, new_filter, bloom_words, epoch_threshold, hash_coords, contains_loop,
  contains, turn_over, insert,
}
use gibberish.Radio.Dedup.AllSet.{AllSet, length-insert_loop, AllSet-kept, AllSet-insert_loop}

-- The sizes of the arrays, and the turnover of the counter.
pub record Sized (f : SlidingBloomFilter) : Type 0 where
  pub active_len : length f.active_epoch ≡ bloom_words
  pub previous_len : length f.previous_epoch ≡ bloom_words
  pub entries_in : f.entries_in_epoch ≤ epoch_threshold

turn_over-Sized :
    (f : SlidingBloomFilter)
    → Sized f
    → (length (turn_over f).active_epoch ≡ bloom_words)
      × (length (turn_over f).previous_epoch ≡ bloom_words)
      × ((turn_over f).entries_in_epoch < epoch_threshold)
unfolding turn_over
turn_over-Sized f v =
    ground
      (arith, length-replicate {A = ℕ} bloom_words 0, v.active_len, v.previous_len, v.entries_in)

-- The packet will be found for `n` more insertions.
unfoldable pub Remembers : ℕ → SlidingBloomFilter → ℕ × ℕ → Type 0
Remembers n f key =
    (AllSet 7 0 (hash_coords key.0 key.1) f.active_epoch × (n + f.entries_in_epoch ≤ 1024))
    ⊎ (AllSet 7 0 (hash_coords key.0 key.1) f.previous_epoch × (n + f.entries_in_epoch ≤ 512))

turn_over-Remembers :
    (n : ℕ) (f : SlidingBloomFilter) (key : ℕ × ℕ)
    → Sized f
    → Remembers (suc n) f key
    → Remembers (suc n) (turn_over f) key
unfolding Remembers turn_over
turn_over-Remembers n f key v (inl r) = elim (Bool-cases (leb epoch_threshold f.entries_in_epoch)) [
  | inl full ↦ rw full (inr (r.0, omega (arith, leb→le epoch_threshold f.entries_in_epoch full)))
  | inr space ↦ rw space (inl r)
]
turn_over-Remembers n f key v (inr r) = elim (Bool-cases (leb epoch_threshold f.entries_in_epoch)) [
  | inl full ↦ absurd (ground arith)
  | inr space ↦ rw space (inr r)
]

abbrev noted : SlidingBloomFilter → ℕ × ℕ → SlidingBloomFilter
noted f key = record f {
  recent_lru = set f.recent_lru f.lru_head key;
  lru_head = (f.lru_head + 1) % 64;
}

noted-Sized : (f : SlidingBloomFilter) (key : ℕ × ℕ) → Sized f → Sized (noted f key)
noted-Sized f key v = record {
  active_len = v.active_len;
  previous_len = v.previous_len;
  entries_in = v.entries_in;
}

pub insert-Sized : (f : SlidingBloomFilter) (key : ℕ × ℕ) → Sized f → Sized (insert f key)
unfolding insert
insert-Sized f key v =
    let t = turn_over (noted f key) in
    let s = turn_over-Sized (noted f key) (noted-Sized f key v) in
    record {
      active_len = length-insert_loop 7 0 (hash_coords key.0 key.1) t.active_epoch ∙ s.0;
      previous_len = s.1;
      entries_in = omega arith;
    }

pub insert-Remembers :
    (n : ℕ) (f : SlidingBloomFilter) (key other : ℕ × ℕ)
    → Sized f
    → Remembers (suc n) f key
    → Remembers n (insert f other) key
unfolding Remembers insert
insert-Remembers n f key other v r =
    let s = turn_over-Sized (noted f other) (noted-Sized f other v) in
    elim (turn_over-Remembers n (noted f other) key (noted-Sized f other v) r) [
      | inl a ↦ inl (
        AllSet-kept 7 0 (hash_coords key.0 key.1) (hash_coords other.0 other.1)
            (turn_over (noted f other)).active_epoch s.0 a.0,
        omega (arith, a.1),
      )
      | inr a ↦ inr (a.0, omega (arith, a.1))
    ]

pub insert-Remembers_self :
    (f : SlidingBloomFilter) (key : ℕ × ℕ) → Sized f → Remembers 512 (insert f key) key
unfolding Remembers insert
insert-Remembers_self f key v =
    let s = turn_over-Sized (noted f key) (noted-Sized f key v) in
    inl (
      AllSet-insert_loop 7 0 (hash_coords key.0 key.1) (turn_over (noted f key)).active_epoch s.0,
      omega (arith, s.2),
    )

contains_loop-active :
    (rounds i : ℕ) (h : ℕ × ℕ) (f : SlidingBloomFilter)
    → AllSet rounds i h f.active_epoch
    → contains_loop rounds i h f ≡ true
unfolding AllSet contains_loop
contains_loop-active zero i h f a = refl
contains_loop-active (suc rounds) i h f a =
    ground (arith, a, contains_loop-active rounds (i + 1) h f a.1)

contains_loop-previous :
    (rounds i : ℕ) (h : ℕ × ℕ) (f : SlidingBloomFilter)
    → AllSet rounds i h f.previous_epoch
    → contains_loop rounds i h f ≡ true
unfolding AllSet contains_loop
contains_loop-previous zero i h f a = refl
contains_loop-previous (suc rounds) i h f a =
    ground (arith, a, contains_loop-previous rounds (i + 1) h f a.1)

pub contains-Remembers :
    (n : ℕ) (f : SlidingBloomFilter) (key : ℕ × ℕ) → Remembers n f key → contains f key ≡ true
unfolding Remembers contains
contains-Remembers n f key (inl a) =
    ground (arith, contains_loop-active 7 0 (hash_coords key.0 key.1) f a.0)
contains-Remembers n f key (inr a) =
    ground (arith, contains_loop-previous 7 0 (hash_coords key.0 key.1) f a.0)

-- The filter after these packets, the first one first.
unfoldable pub insert_all : SlidingBloomFilter → List (ℕ × ℕ) → SlidingBloomFilter
insert_all f [] = f
insert_all f (key ∷ keys) = insert_all (insert f key) keys

contains-insert_all :
    (n : ℕ) (f : SlidingBloomFilter) (key : ℕ × ℕ) (keys : List (ℕ × ℕ))
    → length keys ≤ n
    → Sized f
    → Remembers n f key
    → contains (insert_all f keys) key ≡ true
unfolding insert_all
contains-insert_all n f key [] h v r = contains-Remembers n f key r
contains-insert_all zero f key (other ∷ keys) h v r = absurd (omega arith)
contains-insert_all (suc n) f key (other ∷ keys) h v r =
    contains-insert_all n (insert f other) key keys (omega arith) (insert-Sized f other v)
      (insert-Remembers n f key other v r)

-- The sizes of all arrays, and the place of the next packet inside its array.
pub record IsFilter (f : SlidingBloomFilter) : Type 0 where
  pub sized : Sized f
  pub lru_len : length f.recent_lru ≡ 64
  pub lru_in : f.lru_head < 64

turn_over-lru :
    (f : SlidingBloomFilter)
    → ((turn_over f).recent_lru ≡ f.recent_lru) × ((turn_over f).lru_head ≡ f.lru_head)
unfolding turn_over
turn_over-lru f = ground arith

pub insert-IsFilter : (f : SlidingBloomFilter) (key : ℕ × ℕ) → IsFilter f → IsFilter (insert f key)
unfolding insert
insert-IsFilter f key v = record {
  sized = insert-Sized f key v.sized;
  lru_len =
      ap length (turn_over-lru (noted f key)).0
      ∙ length-set f.recent_lru f.lru_head key
      ∙ v.lru_len;
  lru_in = omega (arith, (turn_over-lru (noted f key)).1);
}

pub new_filter-Sized : Sized new_filter
unfolding new_filter
new_filter-Sized = record {
  active_len = length-replicate {A = ℕ} bloom_words 0;
  previous_len = length-replicate {A = ℕ} bloom_words 0;
  entries_in = omega arith;
}

pub new_filter-IsFilter : IsFilter new_filter
unfolding new_filter
new_filter-IsFilter = record {
  sized = new_filter-Sized;
  lru_len = length-replicate {A = ℕ × ℕ} 64 (0, 0);
  lru_in = omega arith;
}

insert_all-Sized :
    (f : SlidingBloomFilter) (keys : List (ℕ × ℕ)) → Sized f → Sized (insert_all f keys)
unfolding insert_all
insert_all-Sized f [] v = v
insert_all-Sized f (key ∷ keys) v = insert_all-Sized (insert f key) keys (insert-Sized f key v)

-- A duplicate is recognized: whatever packets were inserted before, a packet that is
-- inserted is found, now and after up to 512 further insertions of any packets, turnovers of the epoch
-- included.
pub contains-insert :
    (before : List (ℕ × ℕ)) (key : ℕ × ℕ) (after : List (ℕ × ℕ))
    → length after ≤ epoch_threshold
    → contains (insert_all (insert (insert_all new_filter before) key) after) key ≡ true
contains-insert before key after h =
    let v = insert_all-Sized new_filter before new_filter-Sized in
    contains-insert_all 512 (insert (insert_all new_filter before) key) key after h
      (insert-Sized (insert_all new_filter before) key v)
      (insert-Remembers_self (insert_all new_filter before) key v)
