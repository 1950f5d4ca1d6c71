-- ===== src/Radio/Dedup/AllSet.antt =====
-- The seven bits of a packet in one filter: they are set when it is inserted, and stay set.
use gibberish.Prelude.{
  ℕ, zero, suc, ◌+◌, ◌/◌, ◌%◌, ◌<◌, ◌≡◌, inl, inr, refl, ap, ◌∙◌, sym, true, List, length, get_or,
  set, ◌==◌, arith, Bool-cases, get_or-set_self, get_or-set_ne, length-set, ==→eq, eq→==,
}
use gibberish.Prelude.Bits.{test_bit, set_bit}
use gibberish.Prelude.Words.{test_bit-set_bit_self, test_bit-set_bit_kept}
use gibberish.Radio.Dedup.{bloom_words, bit_idx, has_bit, put_bit, insert_loop}

pub has_bit-put_bit_self :
    (words : List ℕ) (i : ℕ)
    → length words ≡ bloom_words
    → i < 10240
    → has_bit (put_bit words i) i ≡ true
unfolding has_bit put_bit
has_bit-put_bit_self words i n h =
    ap (λ w. test_bit w (i % 64))
      (get_or-set_self words (i / 64) (set_bit (get_or words (i / 64) 0) (i % 64)) 0 (omega arith))
    ∙ test_bit-set_bit_self (get_or words (i / 64) 0) (i % 64)

pub has_bit-put_bit_kept :
    (words : List ℕ) (i j : ℕ)
    → length words ≡ bloom_words
    → i < 10240
    → has_bit words j ≡ true
    → has_bit (put_bit words i) j ≡ true
unfolding has_bit put_bit
has_bit-put_bit_kept words i j n h b =
    let w = set_bit (get_or words (i / 64) 0) (i % 64) in
    elim (Bool-cases (i / 64 == j / 64)) [
      | inl e ↦
          let same = ==→eq (i / 64) (j / 64) e in
          ap (λ v. test_bit v (j % 64))
            (ap (λ k. get_or (set words (i / 64) w) k 0) (sym same)
              ∙ get_or-set_self words (i / 64) w 0 (omega arith))
          ∙ test_bit-set_bit_kept (get_or words (i / 64) 0) (i % 64) (j % 64)
              (ap (λ k. test_bit (get_or words k 0) (j % 64)) same ∙ b)
      | inr e ↦
          ap (λ v. test_bit v (j % 64))
            (get_or-set_ne words (i / 64) (j / 64) w 0 (λ same. cc (eq→== (i / 64) (j / 64) same)))
          ∙ b
    ]

-- All bits of a packet from the turn `i` on are set.
unfoldable pub AllSet : ℕ → ℕ → ℕ × ℕ → List ℕ → Type 0
AllSet zero i h words = Unit
AllSet (suc rounds) i h words = (has_bit words (bit_idx h i) ≡ true) × AllSet rounds (i + 1) h words

pub bit_idx-lt : (h : ℕ × ℕ) (i : ℕ) → bit_idx h i < 10240
unfolding bit_idx
bit_idx-lt h i = omega arith

pub length-put_bit : (words : List ℕ) (i : ℕ) → length (put_bit words i) ≡ length words
unfolding put_bit
length-put_bit words i = length-set words (i / 64) (set_bit (get_or words (i / 64) 0) (i % 64))

pub length-insert_loop :
    (rounds i : ℕ) (h : ℕ × ℕ) (words : List ℕ)
    → length (insert_loop rounds i h words) ≡ length words
unfolding insert_loop
length-insert_loop zero i h words = refl
length-insert_loop (suc rounds) i h words =
    length-insert_loop rounds (i + 1) h (put_bit words (bit_idx h i))
    ∙ length-put_bit words (bit_idx h i)

pub has_bit-insert_loop :
    (rounds i : ℕ) (h : ℕ × ℕ) (words : List ℕ) (j : ℕ)
    → length words ≡ bloom_words
    → has_bit words j ≡ true
    → has_bit (insert_loop rounds i h words) j ≡ true
unfolding insert_loop
has_bit-insert_loop zero i h words j n b = b
has_bit-insert_loop (suc rounds) i h words j n b =
    has_bit-insert_loop rounds (i + 1) h (put_bit words (bit_idx h i)) j
      (length-put_bit words (bit_idx h i) ∙ n)
      (has_bit-put_bit_kept words (bit_idx h i) j n (bit_idx-lt h i) b)

-- A packet's bits stay set while others are inserted, and its own are set when it is.
pub AllSet-kept :
    (rounds i : ℕ) (h g : ℕ × ℕ) (words : List ℕ)
    → length words ≡ bloom_words
    → AllSet rounds i h words
    → AllSet rounds i h (insert_loop 7 0 g words)
unfolding AllSet
AllSet-kept zero i h g words n a = tt
AllSet-kept (suc rounds) i h g words n a = (
  has_bit-insert_loop 7 0 g words (bit_idx h i) n a.0,
  AllSet-kept rounds (i + 1) h g words n a.1,
)

pub AllSet-insert_loop :
    (rounds i : ℕ) (h : ℕ × ℕ) (words : List ℕ)
    → length words ≡ bloom_words
    → AllSet rounds i h (insert_loop rounds i h words)
unfolding AllSet insert_loop
AllSet-insert_loop zero i h words n = tt
AllSet-insert_loop (suc rounds) i h words n =
    let put = put_bit words (bit_idx h i) in
    let m : length put ≡ bloom_words = length-put_bit words (bit_idx h i) ∙ n in
    (
      has_bit-insert_loop rounds (i + 1) h put (bit_idx h i) m
          (has_bit-put_bit_self words (bit_idx h i) n (bit_idx-lt h i)),
      AllSet-insert_loop rounds (i + 1) h put m,
    )
