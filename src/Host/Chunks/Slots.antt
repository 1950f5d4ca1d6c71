-- ===== src/Host/Chunks/Slots.antt =====
-- The chunks of a text as the receiver holds them, and the text that they make.
use gibberish.Prelude.{
  ℕ, zero, suc, ◌+◌, ◌-◌, ◌*◌, ◌≤◌, ◌<◌, ◌≡◌, refl, ap, ◌∙◌, sym, Bool, true, false, Option, none,
  some, List, [], ◌∷◌, ◌++◌, length, get_elem?, set, all, take, drop, replicate, is_some, arith,
  ◌==◌, ◌⊎◌, if◌then◌else◌, Bool-cases, inl, inr, append-nil, length-take, take-append-drop,
  take-all, leb, leb→le,
}
use gibberish.Prelude.Bytes.{slice, write_at}
use gibberish.Protocol.Consts.{plaintext_chunk_len}
use gibberish.Crypto.RoundTrip.{padded}
use gibberish.Host.Chunks.Send.{chunk_data, num_chunks}
use gibberish.Host.Chunks.Receive.{trim_nulls, assembled}

abbrev pub id_Bool : Bool → Bool
id_Bool b = b

-- The received chunks from `i` on, when those have arrived that `seen` says.
unfoldable pub slots : List ℕ → ℕ → List Bool → List (Option (List ℕ))
slots text i [] = []
slots text i (b ∷ seen) =
    (if b then some (padded (chunk_data text i)) else none) ∷ slots text (suc i) seen

pub slots-replicate :
    (text : List ℕ) (i n : ℕ) → slots text i (replicate n false) ≡ replicate n none
unfolding slots
slots-replicate text i zero = refl
slots-replicate text i (suc n) = ap (λ r. none ∷ r) (slots-replicate text (suc i) n)

pub all-slots :
    (text : List ℕ) (i : ℕ) (seen : List Bool) → all is_some (slots text i seen) ≡ all id_Bool seen
unfolding slots
all-slots text i [] = refl
all-slots text i (true ∷ seen) = all-slots text (suc i) seen
all-slots text i (false ∷ seen) = refl

pub get_elem?-slots :
    (text : List ℕ) (i j : ℕ) (seen : List Bool)
    → j < length seen
    → (get_elem? (slots text i seen) j ≡ some none)
      ⊎ ((ch : List ℕ) × (get_elem? (slots text i seen) j ≡ some (some ch))
          × (set seen j true ≡ seen))
unfolding slots
get_elem?-slots text i j [] h = absurd (omega arith)
get_elem?-slots text i zero (true ∷ seen) h = inr (padded (chunk_data text i), refl, refl)
get_elem?-slots text i zero (false ∷ seen) h = inl refl
get_elem?-slots text i (suc j) (b ∷ seen) h =
    elim (get_elem?-slots text (suc i) j seen (omega arith)) [
      | inl e ↦ inl e
      | inr r ↦ inr (r.0, r.1, ap (λ s. b ∷ s) r.2)
    ]

pub set-slots :
    (text : List ℕ) (i j : ℕ) (seen : List Bool)
    → set (slots text i seen) j (some (padded (chunk_data text (i + j))))
      ≡ slots text i (set seen j true)
unfolding slots
set-slots text i j [] = refl
set-slots text i zero (b ∷ seen) =
    let at : i + 0 ≡ i = omega arith in
    ap (λ k. some (padded (chunk_data text k)) ∷ slots text (suc i) seen) at
set-slots text i (suc j) (b ∷ seen) =
    let at : i + suc j ≡ suc i + j = omega arith in
    let rest = set-slots text (suc i) j seen in
    ap
      (λ k.
        (if b then some (padded (chunk_data text i)) else none)
        ∷ set (slots text (suc i) seen) j (some (padded (chunk_data text k))))
      at
    ∙ ap (λ r. (if b then some (padded (chunk_data text i)) else none) ∷ r) rest

-- Zeros at the end are trimmed.
trim_nulls-congr :
    (a x y : List ℕ) → trim_nulls x ≡ trim_nulls y → trim_nulls (a ++ x) ≡ trim_nulls (a ++ y)
unfolding trim_nulls
trim_nulls-congr [] x y h = h
trim_nulls-congr (b ∷ a) x y h =
    ap (λ t. elim t as (λ z. List ℕ) [ [] ↦ if b == 0 then [] else b ∷ [] | z ∷ zs ↦ b ∷ (z ∷ zs) ])
      (trim_nulls-congr a x y h)

trim_nulls-zeros : (n : ℕ) → trim_nulls (replicate n 0) ≡ []
unfolding trim_nulls
trim_nulls-zeros zero = refl
trim_nulls-zeros (suc n) = ground (arith, trim_nulls-zeros n)

trim_nulls-append_zeros : (xs : List ℕ) (n : ℕ) → trim_nulls (xs ++ replicate n 0) ≡ trim_nulls xs
unfolding trim_nulls
trim_nulls-append_zeros xs n =
    trim_nulls-congr xs (replicate n 0) [] (trim_nulls-zeros n) ∙ ap trim_nulls (append-nil xs)

padded_append :
    (n : ℕ) (src : List ℕ)
    → length src ≤ n
    → write_at 0 src (replicate n 0) ≡ src ++ replicate (n - length src) 0
unfolding write_at
padded_append n [] h = ap (λ k. replicate k 0) (omega arith)
padded_append zero (x ∷ src) h = absurd (omega arith)
padded_append (suc n) (x ∷ src) h =
    let at : suc n - suc (length src) ≡ n - length src = omega arith in
    ap (λ r. x ∷ r) (padded_append n src (omega arith))
    ∙ ap (λ k. x ∷ (src ++ replicate k 0)) (sym at)

drop-past : (n : ℕ) (xs : List ℕ) → length xs ≤ n → drop n xs ≡ []
drop-past zero [] h = refl
drop-past (suc n) [] h = refl
drop-past zero (x ∷ xs) h = absurd (omega arith)
drop-past (suc n) (x ∷ xs) h = drop-past n xs (omega arith)

drop-drop : (m n : ℕ) (xs : List ℕ) → drop n (drop m xs) ≡ drop (m + n) xs
drop-drop zero n xs = ap (λ k. drop k xs) (omega arith)
drop-drop (suc m) n [] = drop-past n [] (omega arith) ∙ sym (drop-past (suc m + n) [] (omega arith))
drop-drop (suc m) n (x ∷ xs) =
    let at : suc (m + n) ≡ suc m + n = omega arith in
    drop-drop m n xs ∙ ap (λ k. drop k (x ∷ xs)) at

-- A padded chunk and what follows it make the text, zeros at the end apart.
padded_step :
    (rest : List ℕ)
    → trim_nulls (padded (take plaintext_chunk_len rest) ++ drop plaintext_chunk_len rest)
      ≡ trim_nulls rest
unfolding padded
padded_step rest = elim (Bool-cases (leb plaintext_chunk_len (length rest))) [
  | inl e ↦
      let full : length (take plaintext_chunk_len rest) ≡ plaintext_chunk_len =
        omega (
          arith,
          length-take plaintext_chunk_len rest,
          leb→le plaintext_chunk_len (length rest) e,
        ) in
      let fits : length (take plaintext_chunk_len rest) ≤ plaintext_chunk_len = omega arith in
      let front : padded (take plaintext_chunk_len rest) ≡ take plaintext_chunk_len rest =
        padded_append plaintext_chunk_len (take plaintext_chunk_len rest) fits
        ∙ ap (λ k. take plaintext_chunk_len rest ++ replicate (plaintext_chunk_len - k) 0) full
        ∙ append-nil (take plaintext_chunk_len rest) in
      ap (λ f. trim_nulls (f ++ drop plaintext_chunk_len rest)) front
      ∙ ap trim_nulls (take-append-drop plaintext_chunk_len rest)
  | inr e ↦
      let short : length rest ≤ plaintext_chunk_len = ground arith in
      ap (λ t. trim_nulls (padded t ++ drop plaintext_chunk_len rest))
        (take-all rest plaintext_chunk_len short)
      ∙ ap (λ d. trim_nulls (padded rest ++ d)) (drop-past plaintext_chunk_len rest short)
      ∙ ap trim_nulls (append-nil (padded rest) ∙ padded_append plaintext_chunk_len rest short)
      ∙ trim_nulls-append_zeros rest (plaintext_chunk_len - length rest)
]

chunks_trim :
    (text : List ℕ) (i : ℕ) (seen : List Bool)
    → all id_Bool seen ≡ true
    → length text ≤ (i + length seen) * plaintext_chunk_len
    → trim_nulls (assembled (slots text i seen)) ≡ trim_nulls (drop (i * plaintext_chunk_len) text)
unfolding slots assembled chunk_data slice trim_nulls
chunks_trim text i [] a h =
    ap trim_nulls (sym (drop-past (i * plaintext_chunk_len) text (omega arith)))
chunks_trim text i (false ∷ seen) a h = absurd (ground arith)
chunks_trim text i (true ∷ seen) a h =
    let rest = drop (i * plaintext_chunk_len) text in
    let at : suc i * plaintext_chunk_len ≡ i * plaintext_chunk_len + plaintext_chunk_len =
      omega arith in
    trim_nulls-congr (padded (take plaintext_chunk_len rest)) (assembled (slots text (suc i) seen))
      (drop (suc i * plaintext_chunk_len) text) (chunks_trim text (suc i) seen a (omega arith))
    ∙ ap (λ d. trim_nulls (padded (take plaintext_chunk_len rest) ++ d))
        (ap (λ k. drop k text) at
          ∙ sym (drop-drop (i * plaintext_chunk_len) plaintext_chunk_len text))
    ∙ padded_step rest

-- All chunks of a text make the text, but for zeros at its end.
pub assembled-slots :
    (text : List ℕ) (seen : List Bool)
    → all id_Bool seen ≡ true
    → length seen ≡ num_chunks text
    → trim_nulls (assembled (slots text 0 seen)) ≡ trim_nulls text
unfolding num_chunks
assembled-slots text seen a n = chunks_trim text 0 seen a (omega arith)
