-- ===== src/Protocol/Sack/Closures.antt =====
-- `for_each_missing` calls any closure on the indices that it visits, in their order.
use gibberish.Prelude.{
  ℕ, zero, suc, ◌+◌, ◌*◌, ◌≡◌, refl, ap, ◌∙◌, sym, inl, inr, List, [], ◌∷◌, ◌++◌, Bool-cases, ◌==◌,
}
use gibberish.Prelude.Bits.{test_bit}
use gibberish.Protocol.Sack.{SackPayload, for_bits, for_bytes, for_each_missing}
use gibberish.Protocol.Sack.Visits.{collect, visits}

-- A loop over a list.
unfoldable pub each : {A : Type 0} → (A → ℕ → A) → A → List ℕ → A
each f acc [] = acc
each f acc (i ∷ is) = each f (f acc i) is

each-append :
    {A : Type 0} (f : A → ℕ → A) (acc : A) (xs ys : List ℕ)
    → each f acc (xs ++ ys) ≡ each f (each f acc xs) ys
unfolding each
each-append f acc [] ys = refl
each-append f acc (x ∷ xs) ys = each-append f (f acc x) xs ys

module _ {A : Type 0} (f : A → ℕ → A) (a0 : A) where
  for_bits-each :
      (rounds bit byte start : ℕ) (seen : List ℕ)
      → for_bits f rounds bit byte start (each f a0 seen)
        ≡ each f a0 (for_bits collect rounds bit byte start seen)
  unfolding for_bits each
  for_bits-each zero bit byte start seen = refl
  for_bits-each (suc rounds) bit byte start seen = elim (Bool-cases (test_bit byte bit)) [
    | inl t ↦ rw t (
        ap (for_bits f rounds (bit + 1) byte start)
          (sym (each-append f a0 seen ((start + bit) ∷ [])))
        ∙ for_bits-each rounds (bit + 1) byte start (seen ++ ((start + bit) ∷ [])))
    | inr t ↦ rw t (for_bits-each rounds (bit + 1) byte start seen)
  ]

  for_bytes-each :
      (base k : ℕ) (bytes seen : List ℕ)
      → for_bytes f base k bytes (each f a0 seen) ≡ each f a0 (for_bytes collect base k bytes seen)
  unfolding for_bytes
  for_bytes-each base k [] seen = refl
  for_bytes-each base k (byte ∷ bytes) seen = elim (Bool-cases (byte == 0)) [
    | inl z ↦ rw z (for_bytes-each base (k + 1) bytes seen)
    | inr z ↦ rw z (
        ap (for_bytes f base (k + 1) bytes) (for_bits-each 8 0 byte (base + k * 8) seen)
        ∙ for_bytes-each base (k + 1) bytes (for_bits collect 8 0 byte (base + k * 8) seen))
  ]

  -- Any closure is called on what `for_each_missing` visits.
  pub for_each_missing-visits : (s : SackPayload) → for_each_missing s f a0 ≡ each f a0 (visits s)
  unfolding for_each_missing visits each
  for_each_missing-visits s = for_bytes-each s.base_chunk 0 s.bitmask []
