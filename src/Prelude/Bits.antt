-- ===== src/Prelude/Bits.antt =====
-- Single bits of a byte: `b | 1 << i`, `b & !(1 << i)`, `b & (1 << i) != 0`, `b.count_ones()`. The
-- laws are checked on all bytes by evaluation.
use Prim.Native.Nat.{bit_and, bit_or}
use gibberish.Prelude.{
  ℕ, zero, suc, ◌+◌, ◌-◌, ◌^◌, ◌/◌, ◌%◌, ◌<◌, ◌≡◌, refl, Bool, true, false, not, ◌&&◌, ◌||◌, ◌==◌,
  arith, ==→eq, if◌then◌else◌, ltb, ltb→lt,
}

unfoldable pub test_bit : ℕ → ℕ → Bool
test_bit b i = not (bit_and b (2 ^ i) == 0)

unfoldable pub set_bit : ℕ → ℕ → ℕ
set_bit b i = bit_or b (2 ^ i)

-- `!` of a `u8`
unfoldable pub clear_bit : ℕ → ℕ → ℕ
clear_bit b i = bit_and b (255 - 2 ^ i)

-- The bits of `b` that are 1, the `n` lowest of them.
count_bits : ℕ → ℕ → ℕ
count_bits zero b = 0
count_bits (suc n) b = b % 2 + count_bits n (b / 2)

unfoldable pub count_ones : ℕ → ℕ
unfolding count_bits
count_ones b = count_bits 8 b

-- `law` on all numbers under a bound.
pub every : ℕ → (ℕ → Bool) → Bool
every zero law = true
every (suc k) law = every k law && law k

pub every-lt : (k b : ℕ) (law : ℕ → Bool) → b < k → every k law ≡ true → law b ≡ true
unfolding every
every-lt zero b law under checked = absurd (omega arith)
every-lt (suc k) b law under checked = ground (arith, every-lt k b law)

abbrev pub bool_eq : Bool → Bool → Bool
bool_eq true b = b
bool_eq false b = not b

bool_eq_sound : (a b : Bool) → bool_eq a b ≡ true → a ≡ b
bool_eq_sound true true h = refl
bool_eq_sound true false h = cc
bool_eq_sound false true h = cc
bool_eq_sound false false h = refl

set_law : ℕ → ℕ → ℕ → Bool
set_law b i j =
    bool_eq (test_bit (set_bit b i) j) ((i == j) || test_bit b j) && ltb (set_bit b i) 256

set_table : every 256 (λ b. every 8 (λ i. every 8 (λ j. set_law b i j))) ≡ true
unfolding every set_law test_bit set_bit
set_table = refl

clear_law : ℕ → ℕ → ℕ → Bool
clear_law b i j =
    bool_eq (test_bit (clear_bit b i) j) (not (i == j) && test_bit b j) && ltb (clear_bit b i) 256

clear_table : every 256 (λ b. every 8 (λ i. every 8 (λ j. clear_law b i j))) ≡ true
unfolding every clear_law test_bit clear_bit
clear_table = refl

and_parts : (a b : Bool) → a && b ≡ true → (a ≡ true) × (b ≡ true)
and_parts true true h = (refl, refl)
and_parts true false h = cc
and_parts false b h = cc

from_table :
    (law : ℕ → ℕ → ℕ → Bool)
    → every 256 (λ b. every 8 (λ i. every 8 (λ j. law b i j))) ≡ true
    → (b i j : ℕ) → b < 256
    → i < 8
    → j < 8
    → law b i j ≡ true
from_table law table b i j hb hi hj =
    every-lt 8 j (λ j. law b i j) hj
      (every-lt 8 i (λ i. every 8 (λ j. law b i j)) hi
        (every-lt 256 b (λ b. every 8 (λ i. every 8 (λ j. law b i j))) hb table))

pub test_bit-set_bit :
    (b i j : ℕ) → b < 256 → i < 8 → j < 8 → test_bit (set_bit b i) j ≡ ((i == j) || test_bit b j)
unfolding set_law
test_bit-set_bit b i j hb hi hj =
    bool_eq_sound _ _ (and_parts _ _ (from_table set_law set_table b i j hb hi hj)).0

pub set_bit-lt : (b i : ℕ) → b < 256 → i < 8 → set_bit b i < 256
unfolding set_law
set_bit-lt b i hb hi =
    ltb→lt _ _ (and_parts _ _ (from_table set_law set_table b i 0 hb hi (omega arith))).1

pub test_bit-clear_bit :
    (b i j : ℕ)
    → b < 256
    → i < 8
    → j < 8
    → test_bit (clear_bit b i) j ≡ (not (i == j) && test_bit b j)
unfolding clear_law
test_bit-clear_bit b i j hb hi hj =
    bool_eq_sound _ _ (and_parts _ _ (from_table clear_law clear_table b i j hb hi hj)).0

pub clear_bit-lt : (b i : ℕ) → b < 256 → i < 8 → clear_bit b i < 256
unfolding clear_law
clear_bit-lt b i hb hi =
    ltb→lt _ _ (and_parts _ _ (from_table clear_law clear_table b i 0 hb hi (omega arith))).1

abbrev bit : ℕ → ℕ → ℕ
bit b i = if test_bit b i then 1 else 0

count_law : ℕ → Bool
count_law b =
    count_ones b
    == bit b 0
      + (bit b 1 + (bit b 2 + (bit b 3 + (bit b 4 + (bit b 5 + (bit b 6 + (bit b 7 + 0)))))))

count_table : every 256 count_law ≡ true
unfolding every count_law test_bit count_ones
count_table = refl

-- The count of ones is the number of the eight positions whose bit is set.
pub count_ones_bits :
    (b : ℕ)
    → b < 256
    → count_ones b
      ≡ bit b 0
        + (bit b 1 + (bit b 2 + (bit b 3 + (bit b 4 + (bit b 5 + (bit b 6 + (bit b 7 + 0)))))))
unfolding count_law
count_ones_bits b h = ==→eq _ _ (every-lt 256 b count_law h count_table)

zero_table : every 256 (λ b. bool_eq (b == 0) (count_ones b == 0)) ≡ true
unfolding every count_ones
zero_table = refl

-- A byte has no bit set exactly when it is zero.
pub count_ones-zero : (b : ℕ) → b < 256 → (b == 0) ≡ (count_ones b == 0)
count_ones-zero b h =
    bool_eq_sound _ _ (every-lt 256 b (λ b. bool_eq (b == 0) (count_ones b == 0)) h zero_table)

pub test_bit-zero : (i : ℕ) → i < 8 → test_bit 0 i ≡ false
unfolding test_bit
test_bit-zero i h = bool_eq_sound _ _ (every-lt 8 i (λ i. bool_eq (test_bit 0 i) false) h table)
  where
    table : every 8 (λ i. bool_eq (test_bit 0 i) false) ≡ true
    table = unfold every test_bit in refl
