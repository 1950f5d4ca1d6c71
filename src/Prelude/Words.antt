-- ===== src/Prelude/Words.antt =====
-- Single bits of a word of any width: the laws of `test_bit` and `set_bit` without a bound.
use Prim.Native.Nat.{bit_and, bit_or, digits, bit_and-bitwise, bit_or-bitwise, max}
use native.Mathlib.Nat.{pow-suc}
use gibberish.Prelude.{
  ℕ, zero, suc, ◌+◌, ◌*◌, ◌/◌, ◌%◌, ◌^◌, ◌≤◌, ◌≡◌, refl, ap, ◌∙◌, sym, true, not, ◌==◌, min, arith,
}
use gibberish.Prelude.Bits.{test_bit, set_bit}

-- Any two counts that cover the first number give the same digits.
digits_enough :
    (z : ℕ → ℕ) (f : ℕ → ℕ → ℕ) (n m a b : ℕ) → a ≤ n → a ≤ m → digits z f n a b ≡ digits z f m a b
digits_enough z f zero zero a b h k = refl
digits_enough z f zero (suc m) zero b h k = refl
digits_enough z f zero (suc m) (suc a) b h k = absurd (omega arith)
digits_enough z f (suc n) zero zero b h k = refl
digits_enough z f (suc n) zero (suc a) b h k = absurd (omega arith)
digits_enough z f (suc n) (suc m) zero b h k = refl
digits_enough z f (suc n) (suc m) (suc a) b h k =
    ap (λ d. d * 2 + f (suc a % 2) (b % 2))
      (digits_enough z f n m (suc a / 2) (b / 2) (omega arith) (omega arith))

or_half : (a b : ℕ) → bit_or a b ≡ bit_or (a / 2) (b / 2) * 2 + max (a % 2) (b % 2)
or_half zero b = omega (arith, bit_or-bitwise 0 b, bit_or-bitwise 0 (b / 2))
or_half (suc a) b = omega (
  arith,
  bit_or-bitwise (suc a) b,
  bit_or-bitwise (suc a / 2) (b / 2),
  digits_enough (λ b. b) max a (suc a / 2) (suc a / 2) (b / 2) (omega arith) (omega arith),
)

and_half : (a b : ℕ) → bit_and a b ≡ bit_and (a / 2) (b / 2) * 2 + min (a % 2) (b % 2)
and_half zero b = omega (arith, bit_and-bitwise 0 b, bit_and-bitwise 0 (b / 2))
and_half (suc a) b = omega (
  arith,
  bit_and-bitwise (suc a) b,
  bit_and-bitwise (suc a / 2) (b / 2),
  digits_enough (λ b. zero) min a (suc a / 2) (suc a / 2) (b / 2) (omega arith) (omega arith),
)

and_nothing : (n a : ℕ) → a ≤ n → bit_and a 0 ≡ 0
and_nothing zero zero h = refl
and_nothing zero (suc a) h = absurd (omega arith)
and_nothing (suc n) a h = omega (arith, and_half a 0, and_nothing n (a / 2) (omega arith))

or_nothing : (n a : ℕ) → a ≤ n → bit_or a 0 ≡ a
or_nothing zero zero h = refl
or_nothing zero (suc a) h = absurd (omega arith)
or_nothing (suc n) a h = omega (arith, or_half a 0, or_nothing n (a / 2) (omega arith))

-- The lowest bit, and the others.
test_lowest : (w : ℕ) → test_bit w 0 ≡ not (w % 2 == 0)
unfolding test_bit
test_lowest w =
    ap (λ d. not (d == 0)) (omega (arith, and_half w 1, and_nothing w (w / 2) (omega arith)))

half_power : (i : ℕ) → (2 ^ suc i / 2 ≡ 2 ^ i) × (2 ^ suc i % 2 ≡ 0)
half_power i = omega (arith, pow-suc 2 i)

test_next : (w i : ℕ) → test_bit w (suc i) ≡ test_bit (w / 2) i
unfolding test_bit
test_next w i = ground (arith, and_power)
  where
    and_power : bit_and w (2 ^ suc i) ≡ bit_and (w / 2) (2 ^ i) * 2
    and_power =
        omega
          (arith, and_half w (2 ^ suc i), ap (bit_and (w / 2)) (half_power i).0, (half_power i).1)

set_lowest : (w : ℕ) → (set_bit w 0 % 2 ≡ 1) × (set_bit w 0 / 2 ≡ w / 2)
unfolding set_bit
set_lowest w = omega (arith, or_half w 1, or_nothing w (w / 2) (omega arith))

set_next : (w i : ℕ) → (set_bit w (suc i) % 2 ≡ w % 2) × (set_bit w (suc i) / 2 ≡ set_bit (w / 2) i)
unfolding set_bit
set_next w i =
    omega (arith, or_half w (2 ^ suc i), ap (bit_or (w / 2)) (half_power i).0, (half_power i).1)

-- A bit that was set reads as set.
pub test_bit-set_bit_self : (w i : ℕ) → test_bit (set_bit w i) i ≡ true
test_bit-set_bit_self w zero = ground (arith, test_lowest (set_bit w 0), set_lowest w)
test_bit-set_bit_self w (suc i) =
    test_next (set_bit w (suc i)) i
    ∙ (ap (λ v. test_bit v i) (set_next w i).1 ∙ test_bit-set_bit_self (w / 2) i)

-- A bit that is set stays set.
pub test_bit-set_bit_kept : (w i j : ℕ) → test_bit w j ≡ true → test_bit (set_bit w i) j ≡ true
test_bit-set_bit_kept w zero zero h = ground (arith, test_lowest (set_bit w 0), set_lowest w)
test_bit-set_bit_kept w (suc i) zero h =
    ground (arith, test_lowest (set_bit w (suc i)), test_lowest w, set_next w i)
test_bit-set_bit_kept w zero (suc j) h =
    test_next (set_bit w 0) j
    ∙ (ap (λ v. test_bit v j) (set_lowest w).1 ∙ (sym (test_next w j) ∙ h))
test_bit-set_bit_kept w (suc i) (suc j) h =
    test_next (set_bit w (suc i)) j
    ∙ (ap (λ v. test_bit v j) (set_next w i).1
        ∙ test_bit-set_bit_kept (w / 2) i j (sym (test_next w j) ∙ h))
