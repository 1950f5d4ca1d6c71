-- ===== src/Prelude/Int.antt =====
-- Rust's `i8` as a signed integer over the native numbers, and its casts to and from `u8`.
use gibberish.Prelude.{ℕ, ◌+◌, ◌-◌, ◌<◌, ◌≡◌, Bool, arith, ltb, if◌then◌else◌}

-- `negsuc n` is -(n + 1).
pub data ℤ : Type 0 where
  pos : ℕ → ℤ
  negsuc : ℕ → ℤ

-- -128 to 127
abbrev pub IsI8 : ℤ → Type 0
IsI8 (pos n) = n < 128
IsI8 (negsuc n) = n < 128

abbrev pub pos_part : ℤ → ℕ
pos_part (pos n) = n
pos_part (negsuc n) = 0

abbrev pub neg_part : ℤ → ℕ
neg_part (pos n) = 0
neg_part (negsuc n) = n + 1

abbrev pub ltb_ℤ : ℤ → ℤ → Bool
ltb_ℤ a b = ltb (pos_part a + neg_part b) (pos_part b + neg_part a)

-- `x as u8`, for an `i8`: the same bits
unfoldable pub as_u8 : ℤ → ℕ
as_u8 (pos n) = n
as_u8 (negsuc n) = 255 - n

-- `b as i8`, for a `u8`
unfoldable pub as_i8 : ℕ → ℤ
as_i8 b = if ltb b 128 then pos b else negsuc (255 - b)

-- `x as u32`, for an `i8`: sign extension
unfoldable pub as_u32 : ℤ → ℕ
as_u32 (pos n) = n
as_u32 (negsuc n) = 4294967295 - n

pub as_i8-as_u8 : (z : ℤ) → IsI8 z → as_i8 (as_u8 z) ≡ z
unfolding as_i8 as_u8
as_i8-as_u8 (pos n) h = ground arith
as_i8-as_u8 (negsuc n) h = ground arith

pub as_u8-IsByte : (z : ℤ) → IsI8 z → as_u8 z < 256
unfolding as_u8
as_u8-IsByte (pos n) h = omega arith
as_u8-IsByte (negsuc n) h = omega arith
