-- ===== src/Protocol/Sack/Visits.antt =====
-- `for_each_missing` visits the missing chunks of the window in ascending order, and the count and
-- the full acknowledgement agree with what it visits.
use gibberish.Prelude.{
  ℕ, zero, suc, ◌+◌, ◌-◌, ◌*◌, ◌/◌, ◌%◌, ◌≤◌, ◌<◌, ◌≡◌, refl, ap, ap₂, ◌∙◌, sym, Bool, false, List,
  [], ◌∷◌, ◌++◌, length, get_or, ◌==◌, if◌then◌else◌, arith, Bool-cases, inl, inr, ==→eq,
  append-nil, append_assoc,
}
use gibberish.Prelude.Bits.{test_bit, test_bit-zero}
use gibberish.Protocol.Sack.{
  SackPayload, IsSack, sack_bitmask_bytes, is_missing, for_bits, for_bytes, for_each_missing,
}
use gibberish.Protocol.Sack.Marks.{bit_in}

-- The numbers from `i` to `i + n - 1` that pass a test, in ascending order.
unfoldable pub select : (ℕ → Bool) → ℕ → ℕ → List ℕ
select p zero i = []
select p (suc n) i = let rest = select p n (i + 1) in if p i then i ∷ rest else rest

pub select-congr :
    (p q : ℕ → Bool) (n i : ℕ)
    → ((j : ℕ) → i ≤ j → j < i + n → p j ≡ q j)
    → select p n i ≡ select q n i
unfolding select
select-congr p q zero i h = refl
select-congr p q (suc n) i h =
    let ih = select-congr p q n (i + 1) (λ j a b. h j (omega arith) (omega arith)) in
    rw (ih, h i (omega arith) (omega arith))

pub select-append :
    (p : ℕ → Bool) (m n i : ℕ) → select p (m + n) i ≡ select p m i ++ select p n (i + m)
unfolding select
select-append p zero n i = ap₂ (select p) (omega arith) (omega arith)
select-append p (suc m) n i =
    let ih = select-append p m n (i + 1) in
    let at : i + 1 + m ≡ i + suc m = omega arith in
    let step : suc m + n ≡ suc (m + n) = omega arith in
    rw step (ground (arith, ih, ap (λ k. select p n k) at))

pub select-none :
    (p : ℕ → Bool) (n i : ℕ) → ((j : ℕ) → i ≤ j → j < i + n → p j ≡ false) → select p n i ≡ []
unfolding select
select-none p zero i h = refl
select-none p (suc n) i h =
    rw (h i (omega arith) (omega arith))
      (select-none p n (i + 1) (λ j a b. h j (omega arith) (omega arith)))

abbrev pub collect : List ℕ → ℕ → List ℕ
collect acc i = acc ++ (i ∷ [])

for_bits-select :
    (rounds bit byte start : ℕ) (acc : List ℕ)
    → for_bits collect rounds bit byte start acc
      ≡ acc ++ select (λ j. test_bit byte (j - start)) rounds (start + bit)
unfolding for_bits select
for_bits-select zero bit byte start acc = sym (append-nil acc)
for_bits-select (suc rounds) bit byte start acc =
    let at : start + bit - start ≡ bit = omega arith in
    let next : start + (bit + 1) ≡ start + bit + 1 = omega arith in
    elim (Bool-cases (test_bit byte bit)) [
      | inl e ↦ ground (
        arith,
        for_bits-select rounds (bit + 1) byte start (collect acc (start + bit)),
        ap (test_bit byte) at,
        append_assoc acc ((start + bit) ∷ [])
            (select (λ j. test_bit byte (j - start)) rounds (start + bit + 1)),
        ap (select (λ j. test_bit byte (j - start)) rounds) next,
      )
      | inr e ↦ ground (
        arith,
        for_bits-select rounds (bit + 1) byte start acc,
        ap (test_bit byte) at,
        ap (select (λ j. test_bit byte (j - start)) rounds) next,
      )
    ]

unfoldable pub byte_select : ℕ → ℕ → List ℕ
byte_select byte start = select (λ j. test_bit byte (j - start)) 8 start

byte_select-zero : (start : ℕ) → byte_select 0 start ≡ []
unfolding byte_select
byte_select-zero start =
    select-none (λ j. test_bit 0 (j - start)) 8 start
      (λ j a b. test_bit-zero (j - start) (omega arith))

-- One turn of the outer loop, with its `continue` at a zero byte.
byte_turn :
    (byte start : ℕ) (acc : List ℕ)
    → (if byte == 0 then acc else for_bits collect 8 0 byte start acc)
      ≡ acc ++ byte_select byte start
unfolding byte_select
byte_turn byte start acc = elim (Bool-cases (byte == 0)) [
  | inl e ↦ rw e (
      sym (append-nil acc)
      ∙ ap (λ l. acc ++ l) (sym (byte_select-zero start))
      ∙ ap (λ b. acc ++ byte_select b start) (sym (==→eq byte 0 e)))
  | inr e ↦ rw e (
      for_bits-select 8 0 byte start acc
      ∙ ap (λ k. acc ++ select (λ j. test_bit byte (j - start)) 8 k) (omega arith))
]

unfoldable pub bits_select : List ℕ → ℕ → List ℕ
bits_select bytes start = select (λ j. bit_in bytes (j - start)) (8 * length bytes) start

pub bits_select-cons :
    (byte : ℕ) (bytes : List ℕ) (start : ℕ)
    → bits_select (byte ∷ bytes) start ≡ byte_select byte start ++ bits_select bytes (start + 8)
unfolding bits_select byte_select
bits_select-cons byte bytes start =
    let p = λ (j : ℕ). bit_in (byte ∷ bytes) (j - start) in
    let n : 8 * suc (length bytes) ≡ 8 + 8 * length bytes = omega arith in
    ap (λ k. select p k start) n
    ∙ select-append p 8 (8 * length bytes) start
    ∙ ap₂ ◌++◌ (select-congr p (λ j. test_bit byte (j - start)) 8 start (λ j a b. low j a b)) (
        select-congr p (λ j. bit_in bytes (j - (start + 8))) (8 * length bytes) (start + 8)
          (λ j a b. high j a))
  where
    low :
        (j : ℕ)
        → start ≤ j
        → j < start + 8
        → bit_in (byte ∷ bytes) (j - start) ≡ test_bit byte (j - start)
    low j a b =
        let q : (j - start) / 8 ≡ 0 = omega arith in
        let r : (j - start) % 8 ≡ j - start = omega arith in
        ap₂ (λ k m. test_bit (get_or (byte ∷ bytes) k 0) m) q r

    high :
        (j : ℕ) → start + 8 ≤ j → bit_in (byte ∷ bytes) (j - start) ≡ bit_in bytes (j - (start + 8))
    high j a =
        let q : (j - start) / 8 ≡ suc ((j - (start + 8)) / 8) = omega arith in
        let r : (j - start) % 8 ≡ (j - (start + 8)) % 8 = omega arith in
        ap₂ (λ k m. test_bit (get_or (byte ∷ bytes) k 0) m) q r

for_bytes-select :
    (base k : ℕ) (bytes acc : List ℕ)
    → for_bytes collect base k bytes acc ≡ acc ++ bits_select bytes (base + k * 8)
unfolding for_bytes bits_select select
for_bytes-select base k [] acc = sym (append-nil acc)
for_bytes-select base k (byte ∷ bytes) acc =
    let next : base + (k + 1) * 8 ≡ base + k * 8 + 8 = omega arith in
    ap (for_bytes collect base (k + 1) bytes) (byte_turn byte (base + k * 8) acc)
    ∙ for_bytes-select base (k + 1) bytes (acc ++ byte_select byte (base + k * 8))
    ∙ ap (λ m. (acc ++ byte_select byte (base + k * 8)) ++ bits_select bytes m) next
    ∙ append_assoc acc (byte_select byte (base + k * 8)) (bits_select bytes (base + k * 8 + 8))
    ∙ ap (λ l. acc ++ l) (sym (bits_select-cons byte bytes (base + k * 8)))

-- The indices that `for_each_missing` hands to its closure, in order.
unfoldable pub visits : SackPayload → List ℕ
visits s = for_each_missing s collect []

pub visits-bits_select : (s : SackPayload) → visits s ≡ bits_select s.bitmask s.base_chunk
unfolding visits for_each_missing
visits-bits_select s =
    let zero_start : s.base_chunk + 0 * 8 ≡ s.base_chunk = omega arith in
    for_bytes-select s.base_chunk 0 s.bitmask [] ∙ ap (bits_select s.bitmask) zero_start

-- `for_each_missing` visits exactly the missing chunks of the window, each once, in ascending order.
pub for_each_missing_lem :
    (s : SackPayload)
    → IsSack s
    → visits s ≡ select (is_missing s) (sack_bitmask_bytes * 8) s.base_chunk
unfolding bits_select is_missing
for_each_missing_lem s v =
    let b = s.base_chunk in
    let n : 8 * length s.bitmask ≡ sack_bitmask_bytes * 8 = omega (arith, v.bitmask_len) in
    visits-bits_select s
    ∙ ap (λ k. select (λ j. bit_in s.bitmask (j - b)) k b) n
    ∙ select-congr (λ j. bit_in s.bitmask (j - b)) (is_missing s) (sack_bitmask_bytes * 8) b
        (λ j lo hi. ground arith)
