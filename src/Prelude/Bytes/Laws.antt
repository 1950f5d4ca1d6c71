-- ===== src/Prelude/Bytes/Laws.antt =====
-- Writing into a buffer and reading a range of it.
use gibberish.Prelude.{
  ℕ, zero, suc, ◌+◌, ◌≤◌, ◌<◌, ◌-◌, ◌≡◌, refl, ap, ◌∙◌, Bool, true, false, ◌&&◌, List, [], ◌∷◌,
  arith, length, take, drop, get_or, leb, leb→le, ltb, ltb→lt, length-drop, ==→eq, ◌==◌,
  length-take, sym,
}
use native.Mathlib.Numerals.{unary_clauses}

-- `buf[..].copy_from_slice(src)` from the front on; what does not fit is dropped.
abbrev pub overwrite : List ℕ → List ℕ → List ℕ
overwrite [] buf = buf
overwrite (x ∷ src) [] = []
overwrite (x ∷ src) (b ∷ buf) = x ∷ overwrite src buf

-- `buf[i..i + src.len()].copy_from_slice(src)`
unfoldable pub write_at : ℕ → List ℕ → List ℕ → List ℕ
write_at zero src buf = overwrite src buf
write_at (suc i) src [] = []
write_at (suc i) src (b ∷ buf) = b ∷ write_at i src buf

-- `buf[i] = x`
abbrev pub set_byte : ℕ → ℕ → List ℕ → List ℕ
set_byte i x buf = write_at i (x ∷ []) buf

-- `buf[i..i + n]`
unfoldable pub slice : ℕ → ℕ → List ℕ → List ℕ
slice i n buf = take n (drop i buf)

-- `buf[i]`
unfoldable pub byte_at : ℕ → List ℕ → ℕ
byte_at i buf = get_or buf i 0

-- `a == b`, for slices of bytes
unfoldable pub bytes_eq : List ℕ → List ℕ → Bool
bytes_eq [] [] = true
bytes_eq [] (y ∷ ys) = false
bytes_eq (x ∷ xs) [] = false
bytes_eq (x ∷ xs) (y ∷ ys) = x == y && bytes_eq xs ys

length-overwrite : (src buf : List ℕ) → length (overwrite src buf) ≡ length buf
length-overwrite [] buf = refl
length-overwrite (x ∷ src) [] = refl
length-overwrite (x ∷ src) (b ∷ buf) = ap suc (length-overwrite src buf)

pub length-write_at : (i : ℕ) (src buf : List ℕ) → length (write_at i src buf) ≡ length buf
unfolding write_at
length-write_at zero src buf = length-overwrite src buf
length-write_at (suc i) src [] = refl
length-write_at (suc i) src (b ∷ buf) = ap suc (length-write_at i src buf)

pub length-slice :
    (i n : ℕ) (buf : List ℕ) → leb (i + n) (length buf) ≡ true → length (slice i n buf) ≡ n
unfolding slice
length-slice i n buf h =
    omega (arith, length-take n (drop i buf), length-drop i buf, leb→le (i + n) (length buf) h)

take-overwrite :
    (src buf : List ℕ) → length src ≤ length buf → take (length src) (overwrite src buf) ≡ src
take-overwrite [] buf h = refl
take-overwrite (x ∷ src) [] h = absurd (omega arith)
take-overwrite (x ∷ src) (b ∷ buf) h = ap (λ r. x ∷ r) (take-overwrite src buf (omega arith))

slice-write_self :
    (i : ℕ) (src buf : List ℕ)
    → i + length src ≤ length buf
    → slice i (length src) (write_at i src buf) ≡ src
unfolding slice write_at
slice-write_self zero src buf h = take-overwrite src buf (omega arith)
slice-write_self (suc i) src [] h = absurd (omega arith)
slice-write_self (suc i) src (b ∷ buf) h = slice-write_self i src buf (omega arith)

-- A range that was written reads as what was written there.
pub slice-write_at_self :
    (i n : ℕ) (src buf : List ℕ)
    → (n == length src) ≡ true
    → leb (i + n) (length buf) ≡ true
    → slice i n (write_at i src buf) ≡ src
slice-write_at_self i n src buf e h =
    let p = ==→eq n (length src) e in
    let q = leb→le (i + n) (length buf) h in
    ap (λ k. slice i k (write_at i src buf)) p ∙ slice-write_self i src buf (omega arith)

take-overwrite-drop :
    (src buf : List ℕ) (i : ℕ) → length src ≤ i → drop i (overwrite src buf) ≡ drop i buf
take-overwrite-drop [] buf i h = refl
take-overwrite-drop (x ∷ src) buf zero h = absurd (omega arith)
take-overwrite-drop (x ∷ src) [] (suc i) h = refl
take-overwrite-drop (x ∷ src) (b ∷ buf) (suc i) h = take-overwrite-drop src buf i (omega arith)

drop-write_at :
    (i j : ℕ) (src buf : List ℕ) → j + length src ≤ i → drop i (write_at j src buf) ≡ drop i buf
unfolding write_at
drop-write_at i zero src buf h = take-overwrite-drop src buf i (omega arith)
drop-write_at zero (suc j) src [] h = refl
drop-write_at (suc i) (suc j) src [] h = refl
drop-write_at zero (suc j) src (b ∷ buf) h = absurd (omega arith)
drop-write_at (suc i) (suc j) src (b ∷ buf) h = drop-write_at i j src buf (omega arith)

-- A write behind the range that is read does not change it.
pub slice-write_at_after :
    (i n j : ℕ) (src buf : List ℕ)
    → leb (j + length src) i ≡ true
    → slice i n (write_at j src buf) ≡ slice i n buf
unfolding slice
slice-write_at_after i n j src buf h =
    ap (take n) (drop-write_at i j src buf (leb→le (j + length src) i h))

slice-write_before :
    (i n j : ℕ) (src buf : List ℕ) → i + n ≤ j → slice i n (write_at j src buf) ≡ slice i n buf
unfolding slice write_at
slice-write_before zero zero j src buf h = refl
slice-write_before zero (suc n) zero src buf h = absurd (omega arith)
slice-write_before zero (suc n) (suc j) src [] h = refl
slice-write_before zero (suc n) (suc j) src (b ∷ buf) h =
    ap (λ r. b ∷ r) (slice-write_before zero n j src buf (omega arith))
slice-write_before (suc i) zero zero src buf h = absurd (omega arith)
slice-write_before (suc i) (suc n) zero src buf h = absurd (omega arith)
slice-write_before (suc i) n (suc j) src [] h = refl
slice-write_before (suc i) n (suc j) src (b ∷ buf) h =
    slice-write_before i n j src buf (omega arith)

-- A write before the range that is read does not change it.
pub slice-write_at_before :
    (i n j : ℕ) (src buf : List ℕ)
    → leb (i + n) j ≡ true
    → slice i n (write_at j src buf) ≡ slice i n buf
slice-write_at_before i n j src buf h = slice-write_before i n j src buf (leb→le (i + n) j h)

byte_at-slice : (i : ℕ) (buf : List ℕ) → byte_at i buf ≡ get_or (slice i 1 buf) 0 0
unfolding byte_at slice
byte_at-slice zero [] = refl
byte_at-slice zero (b ∷ buf) = refl
byte_at-slice (suc i) [] = refl
byte_at-slice (suc i) (b ∷ buf) = byte_at-slice i buf

pub byte_at-write_at_self :
    (i x : ℕ) (buf : List ℕ) → ltb i (length buf) ≡ true → byte_at i (write_at i (x ∷ []) buf) ≡ x
byte_at-write_at_self i x buf h =
    let q = ltb→lt i (length buf) h in
    byte_at-slice i (write_at i (x ∷ []) buf)
    ∙ ap (λ s. get_or s 0 0) (slice-write_self i (x ∷ []) buf (omega arith))

pub byte_at-write_at_after :
    (i j : ℕ) (src buf : List ℕ)
    → leb (j + length src) i ≡ true
    → byte_at i (write_at j src buf) ≡ byte_at i buf
byte_at-write_at_after i j src buf h =
    byte_at-slice i (write_at j src buf)
    ∙ ap (λ s. get_or s 0 0) (slice-write_at_after i 1 j src buf h)
    ∙ sym (byte_at-slice i buf)

pub byte_at-write_at_before :
    (i j : ℕ) (src buf : List ℕ) → ltb i j ≡ true → byte_at i (write_at j src buf) ≡ byte_at i buf
byte_at-write_at_before i j src buf h =
    let q = ltb→lt i j h in
    byte_at-slice i (write_at j src buf)
    ∙ ap (λ s. get_or s 0 0) (slice-write_before i 1 j src buf (omega arith))
    ∙ sym (byte_at-slice i buf)

overwrite-whole : (src buf : List ℕ) → length src ≡ length buf → overwrite src buf ≡ src
overwrite-whole [] [] h = refl
overwrite-whole [] (b ∷ buf) h = absurd (omega arith)
overwrite-whole (x ∷ src) [] h = absurd (omega arith)
overwrite-whole (x ∷ src) (b ∷ buf) h = ap (λ r. x ∷ r) (overwrite-whole src buf (omega arith))

-- A write that covers the whole buffer leaves nothing of it.
pub write_at-whole :
    (src buf : List ℕ) → (length src == length buf) ≡ true → write_at 0 src buf ≡ src
unfolding write_at
write_at-whole src buf h = overwrite-whole src buf (==→eq (length src) (length buf) h)

-- Reading inside a range that was written.
byte_at-overwrite :
    (i : ℕ) (src buf : List ℕ)
    → i < length src
    → length src ≤ length buf
    → byte_at i (overwrite src buf) ≡ byte_at i src
unfolding byte_at
byte_at-overwrite i [] buf h l = absurd (omega arith)
byte_at-overwrite i (x ∷ src) [] h l = absurd (omega arith)
byte_at-overwrite zero (x ∷ src) (b ∷ buf) h l = refl
byte_at-overwrite (suc i) (x ∷ src) (b ∷ buf) h l =
    byte_at-overwrite i src buf (omega arith) (omega arith)

pub byte_at-write_at_inside :
    (i j : ℕ) (src buf : List ℕ)
    → leb j i ≡ true
    → ltb i (j + length src) ≡ true
    → leb (j + length src) (length buf) ≡ true
    → byte_at i (write_at j src buf) ≡ byte_at (i - j) src
unfolding byte_at write_at
byte_at-write_at_inside i zero src buf h l r = simp unary_clauses (
    byte_at-overwrite i src buf (omega (arith, ltb→lt i (0 + length src) l))
      (omega (arith, leb→le (0 + length src) (length buf) r)))
byte_at-write_at_inside i (suc j) src [] h l r = absurd (ground arith)
byte_at-write_at_inside zero (suc j) src (b ∷ buf) h l r = absurd (ground arith)
byte_at-write_at_inside (suc i) (suc j) src (b ∷ buf) h l r =
    simp unary_clauses
      (byte_at-write_at_inside i j src buf (ground arith) (ground arith) (ground arith))

pub slice-four :
    (i : ℕ) (buf : List ℕ)
    → leb (i + 4) (length buf) ≡ true
    → slice i 4 buf
      ≡ byte_at i buf
        ∷ byte_at (suc i) buf
        ∷ byte_at (suc (suc i)) buf
        ∷ byte_at (suc (suc (suc i))) buf
        ∷ []
unfolding slice byte_at
slice-four zero (a ∷ b ∷ c ∷ d ∷ buf) h = refl
slice-four zero [] h = absurd (ground arith)
slice-four zero (a ∷ []) h = absurd (ground arith)
slice-four zero (a ∷ b ∷ []) h = absurd (ground arith)
slice-four zero (a ∷ b ∷ c ∷ []) h = absurd (ground arith)
slice-four (suc i) [] h = absurd (ground arith)
slice-four (suc i) (b ∷ buf) h = slice-four i buf (ground arith)

-- What `simp` needs to read back a buffer that was written piece by piece.
pub ruleset buffer_laws = (
  write_at-whole, length-slice, length-write_at, slice-write_at_self, slice-write_at_after,
  slice-write_at_before, byte_at-write_at_self, byte_at-write_at_after, byte_at-write_at_before,
)
