-- ===== src/Protocol/Sack/Counts.antt =====
-- `missing_count` and `is_full_ack` agree with the chunks that `for_each_missing` visits.
use gibberish.Prelude.{
  ℕ, suc, ◌+◌, ◌-◌, ◌<◌, ◌≤◌, ◌≡◌, refl, ap, ◌∙◌, sym, List, [], ◌∷◌, length, all, All, ◌==◌,
  if◌then◌else◌, arith, length-append, Bool-cases, inl, inr, eq→==,
}
use gibberish.Prelude.Bits.{test_bit, count_ones, count_ones_bits, count_ones-zero}
use gibberish.Prelude.Bytes.{IsByte}
use gibberish.Protocol.Sack.{SackPayload, IsSack, missing_count, count_loop, is_full_ack}
use gibberish.Protocol.Sack.Visits.{
  visits, select, byte_select, bits_select, bits_select-cons, visits-bits_select,
}

abbrev bit : ℕ → ℕ → ℕ
bit b i = if test_bit b i then 1 else 0

length-select_step :
    (byte n i start : ℕ)
    → length (select (λ j. test_bit byte (j - start)) (suc n) (start + i))
      ≡ bit byte i + length (select (λ j. test_bit byte (j - start)) n (start + suc i))
unfolding select
length-select_step byte n i start =
    let at : start + i - start ≡ i = omega arith in
    let next : start + i + 1 ≡ start + suc i = omega arith in
    elim (Bool-cases (test_bit byte i)) [
      | inl e ↦ rw (at, e, next) (omega arith)
      | inr e ↦ rw (at, e, next) (omega arith)
    ]

length-byte_select :
    (byte start : ℕ) → byte < 256 → length (byte_select byte start) ≡ count_ones byte
unfolding byte_select
length-byte_select byte start h =
    let from : start ≡ start + 0 = omega arith in
    ap (λ k. length (select (λ j. test_bit byte (j - start)) 8 k)) from
    ∙ omega (
      arith,
      length-select_step byte 7 0 start,
      length-select_step byte 6 1 start,
      length-select_step byte 5 2 start,
      length-select_step byte 4 3 start,
      length-select_step byte 3 4 start,
      length-select_step byte 2 5 start,
      length-select_step byte 1 6 start,
      length-select_step byte 0 7 start,
      none_left,
      count_ones_bits byte h,
    )
  where
    none_left : length (select (λ j. test_bit byte (j - start)) 0 (start + 8)) ≡ 0
    none_left = unfold select in refl

count_loop-le : (bytes : List ℕ) (count : ℕ) → count ≤ count_loop count bytes
unfolding count_loop
count_loop-le [] count = omega arith
count_loop-le (byte ∷ bytes) count = omega (arith, count_loop-le bytes (count + count_ones byte))

count_loop-length :
    (bytes : List ℕ) (count start : ℕ)
    → All IsByte bytes
    → count_loop count bytes ≡ count + length (bits_select bytes start)
unfolding count_loop bits_select select
count_loop-length [] count start h = omega arith
count_loop-length (byte ∷ bytes) count start h =
    let split = ap (λ l. length l) (bits_select-cons byte bytes start) in
    omega (
      arith,
      split,
      length-append {0} (byte_select byte start) (bits_select bytes (start + 8)),
      length-byte_select byte start h.0,
      count_loop-length bytes (count + count_ones byte) (start + 8) h.1,
    )

-- `missing_count` is the number of chunks that `for_each_missing` visits.
pub missing_count-visits : (s : SackPayload) → IsSack s → missing_count s ≡ length (visits s)
unfolding missing_count
missing_count-visits s v = omega (
  arith,
  count_loop-length s.bitmask 0 s.base_chunk v.bitmask_bytes,
  ap (λ (l : List ℕ). length l) (visits-bits_select s),
)

count_loop-zero :
    (bytes : List ℕ) (count : ℕ)
    → All IsByte bytes
    → all (λ b. b == 0) bytes ≡ (count_loop count bytes == count)
unfolding count_loop
count_loop-zero [] count h = sym (eq→== count count refl)
count_loop-zero (byte ∷ bytes) count h = ground (
  arith,
  count_loop-zero bytes (count + count_ones byte) h.1,
  count_ones-zero byte h.0,
  count_loop-le bytes (count + count_ones byte),
)

-- A full acknowledgement is one that asks for no chunk at all.
pub is_full_ack_iff : (s : SackPayload) → IsSack s → is_full_ack s ≡ (length (visits s) == 0)
unfolding is_full_ack missing_count
is_full_ack_iff s v =
    count_loop-zero s.bitmask 0 v.bitmask_bytes ∙ ap (λ k. k == 0) (missing_count-visits s v)
