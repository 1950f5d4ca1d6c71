-- ===== src/Prelude/Bytes/Word.antt =====
-- Rust's `x.to_be_bytes()` and `T::from_be_bytes(b)`, at any number of bytes.
use gibberish.Prelude.{
  ℕ, zero, suc, ◌+◌, ◌*◌, ◌/◌, ◌%◌, ◌^◌, ◌<◌, ◌≡◌, refl, List, [], ◌∷◌, ◌++◌, arith, length,
  length-append, All,
}
use native.Mathlib.Nat.{pow-suc}

abbrev pub IsByte : ℕ → Type 0
IsByte b = b < 256

-- The `n` bytes of `x`, the most significant first.
unfoldable pub to_be_bytes : ℕ → ℕ → List ℕ
to_be_bytes zero x = []
to_be_bytes (suc n) x = to_be_bytes n (x / 256) ++ (x % 256 ∷ [])

unfoldable pub be_loop : ℕ → List ℕ → ℕ
be_loop acc [] = acc
be_loop acc (b ∷ bs) = be_loop (acc * 256 + b) bs

unfoldable pub from_be_bytes : List ℕ → ℕ
unfolding be_loop
from_be_bytes bs = be_loop 0 bs

pub length-to_be_bytes : (n x : ℕ) → length (to_be_bytes n x) ≡ n
unfolding to_be_bytes
length-to_be_bytes zero x = refl
length-to_be_bytes (suc n) x = omega (
  arith,
  length-append {0} (to_be_bytes n (x / 256)) (x % 256 ∷ []),
  length-to_be_bytes n (x / 256),
)

be_loop-append :
    (acc : ℕ) (bs : List ℕ) (b : ℕ) → be_loop acc (bs ++ (b ∷ [])) ≡ be_loop acc bs * 256 + b
unfolding be_loop
be_loop-append acc [] b = refl
be_loop-append acc (c ∷ bs) b = be_loop-append (acc * 256 + c) bs b

-- A word of `n` bytes reads back as it was written.
from_be_bytes-to_be_bytes : (n x : ℕ) → x < 256 ^ n → from_be_bytes (to_be_bytes n x) ≡ x
unfolding from_be_bytes to_be_bytes
from_be_bytes-to_be_bytes zero x h = omega arith
from_be_bytes-to_be_bytes (suc n) x h = omega (
  arith,
  be_loop-append 0 (to_be_bytes n (x / 256)) (x % 256),
  from_be_bytes-to_be_bytes n (x / 256) (omega (arith, pow-suc 256 n)),
)

pub All-append : (P : ℕ → Type 0) (xs ys : List ℕ) → All P xs → All P ys → All P (xs ++ ys)
All-append P [] ys p q = q
All-append P (x ∷ xs) ys p q = (p.0, All-append P xs ys p.1 q)

-- Every byte of a word is a byte.
pub to_be_bytes-IsByte : (n x : ℕ) → All IsByte (to_be_bytes n x)
unfolding to_be_bytes
to_be_bytes-IsByte zero x = tt
to_be_bytes-IsByte (suc n) x =
    All-append IsByte (to_be_bytes n (x / 256)) (x % 256 ∷ []) (to_be_bytes-IsByte n (x / 256))
      (omega arith, tt)

-- The widths that the wire formats use.
pub u16_roundtrip : (x : ℕ) → x < 2 ^ 16 → from_be_bytes (to_be_bytes 2 x) ≡ x
u16_roundtrip x h = from_be_bytes-to_be_bytes 2 x h

pub u32_roundtrip : (x : ℕ) → x < 2 ^ 32 → from_be_bytes (to_be_bytes 4 x) ≡ x
u32_roundtrip x h = from_be_bytes-to_be_bytes 4 x h

pub u64_roundtrip : (x : ℕ) → x < 2 ^ 64 → from_be_bytes (to_be_bytes 8 x) ≡ x
u64_roundtrip x h = from_be_bytes-to_be_bytes 8 x h

pub ruleset word_laws = (length-to_be_bytes, u16_roundtrip, u32_roundtrip, u64_roundtrip)
