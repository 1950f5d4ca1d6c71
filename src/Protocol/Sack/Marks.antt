-- ===== src/Protocol/Sack/Marks.antt =====
-- Marking a chunk changes the answer for that chunk and for no other.
use gibberish.Prelude.{
  ℕ, zero, suc, ◌-◌, ◌/◌, ◌%◌, ◌<◌, ◌≡◌, Bool, not, ◌&&◌, ◌||◌, List, [], ◌∷◌, length, get_or, set,
  All, ◌==◌, arith, Bool-cases, inl, inr, get_or-set_self, get_or-set_ne, length-set,
}
use gibberish.Prelude.Bits.{
  test_bit, set_bit, clear_bit, test_bit-set_bit, test_bit-clear_bit, set_bit-lt,
}
use gibberish.Prelude.Bytes.{IsByte}
use gibberish.Protocol.Sack.{
  SackPayload, IsSack, in_window, mark_missing, mark_received, is_missing,
}

-- The bit of a bitmask at an offset.
abbrev pub bit_in : List ℕ → ℕ → Bool
bit_in bytes off = test_bit (get_or bytes (off / 8) 0) (off % 8)

get_or-IsByte : (bytes : List ℕ) (i : ℕ) → All IsByte bytes → get_or bytes i 0 < 256
get_or-IsByte [] i h = omega arith
get_or-IsByte (b ∷ bytes) zero h = h.0
get_or-IsByte (b ∷ bytes) (suc i) h = get_or-IsByte bytes i h.1

set-IsByte : (bytes : List ℕ) (i v : ℕ) → All IsByte bytes → v < 256 → All IsByte (set bytes i v)
set-IsByte [] i v h hv = h
set-IsByte (b ∷ bytes) zero v h hv = (hv, h.1)
set-IsByte (b ∷ bytes) (suc i) v h hv = (h.0, set-IsByte bytes i v h.1 hv)

module _ (bytes : List ℕ) (i j : ℕ) (h : All IsByte bytes) (hi : i / 8 < length bytes) where
  bit_in-set_bit :
      bit_in (set bytes (i / 8) (set_bit (get_or bytes (i / 8) 0) (i % 8))) j
      ≡ ((i == j) || bit_in bytes j)
  bit_in-set_bit = elim (Bool-cases (i / 8 == j / 8)) [
    | inl e ↦ ground (
      arith,
      get_or-set_self bytes (i / 8) (set_bit (get_or bytes (i / 8) 0) (i % 8)) 0,
      test_bit-set_bit (get_or bytes (i / 8) 0) (i % 8) (j % 8),
      get_or-IsByte bytes (i / 8) h,
    )
    | inr ne ↦
        ground
          (arith, get_or-set_ne bytes (i / 8) (j / 8) (set_bit (get_or bytes (i / 8) 0) (i % 8)) 0)
  ]

  bit_in-clear_bit :
      bit_in (set bytes (i / 8) (clear_bit (get_or bytes (i / 8) 0) (i % 8))) j
      ≡ (not (i == j) && bit_in bytes j)
  bit_in-clear_bit = elim (Bool-cases (i / 8 == j / 8)) [
    | inl e ↦ ground (
      arith,
      get_or-set_self bytes (i / 8) (clear_bit (get_or bytes (i / 8) 0) (i % 8)) 0,
      test_bit-clear_bit (get_or bytes (i / 8) 0) (i % 8) (j % 8),
      get_or-IsByte bytes (i / 8) h,
    )
    | inr ne ↦
        ground (
          arith,
          get_or-set_ne bytes (i / 8) (j / 8) (clear_bit (get_or bytes (i / 8) 0) (i % 8)) 0,
        )
  ]

-- After `mark_missing i` exactly the chunks that were missing, and `i` if it lies in the window, are
-- missing. An index outside the window changes nothing.
pub is_missing-mark_missing :
    (s : SackPayload) (i j : ℕ)
    → IsSack s
    → is_missing (mark_missing s i) j ≡ ((in_window s i && i == j) || is_missing s j)
unfolding is_missing mark_missing
is_missing-mark_missing s i j v =
    ground (arith, bit_in-set_bit s.bitmask (i - s.base_chunk) (j - s.base_chunk) v.bitmask_bytes)

-- After `mark_received i` exactly the chunks other than `i` that were missing are missing.
pub is_missing-mark_received :
    (s : SackPayload) (i j : ℕ)
    → IsSack s
    → is_missing (mark_received s i) j ≡ (not (i == j) && is_missing s j)
unfolding is_missing mark_received
is_missing-mark_received s i j v =
    ground (arith, bit_in-clear_bit s.bitmask (i - s.base_chunk) (j - s.base_chunk) v.bitmask_bytes)

pub mark_missing-IsSack : (s : SackPayload) (i : ℕ) → IsSack s → IsSack (mark_missing s i)
unfolding mark_missing
mark_missing-IsSack s i v =
    let k = (i - s.base_chunk) / 8 in
    let x = set_bit (get_or s.bitmask k 0) ((i - s.base_chunk) % 8) in
    let small =
      set_bit-lt (get_or s.bitmask k 0) ((i - s.base_chunk) % 8)
        (get_or-IsByte s.bitmask k v.bitmask_bytes) (omega arith) in
    ground (arith, length-set s.bitmask k x, set-IsByte s.bitmask k x v.bitmask_bytes small)
