-- ===== src/Usb/Text/Ascii.antt =====
-- Strings of ASCII: each byte is a character.
use gibberish.Prelude.{
  ℕ, ◌<◌, ◌≡◌, ◌≢◌, refl, sym, ap, ◌∙◌, true, false, List, [], ◌∷◌, ◌++◌, map, map-append,
  append_assoc, append-nil, length, arith, All,
}
use gibberish.Prelude.Bytes.{All-append}
use gibberish.Usb.Text.{
  is_continuation, join_char, chars, bytes_of, is_whitespace, trim_start, trim_end, trim, emit,
  words,
}

abbrev pub IsAscii : ℕ → Type 0
IsAscii b = b < 128

-- A visible character.
abbrev pub IsGraph : ℕ → Type 0
IsGraph b = (32 < b) × (b < 128)

abbrev pub singles : List ℕ → List (List ℕ)
singles s = map (λ b. b ∷ []) s

pub IsGraph-IsAscii : (s : List ℕ) → All IsGraph s → All IsAscii s
IsGraph-IsAscii [] h = tt
IsGraph-IsAscii (b ∷ s) h = (h.0.1, IsGraph-IsAscii s h.1)

is_continuation-ascii : (b : ℕ) → b < 128 → is_continuation b ≡ false
unfolding is_continuation
is_continuation-ascii b h = ground arith

join_char-singles :
    (b : ℕ) (s : List ℕ) → All IsAscii s → join_char b (singles s) ≡ (b ∷ []) ∷ singles s
unfolding join_char
join_char-singles b [] h = refl
join_char-singles b (x ∷ s) h = rw (is_continuation x, is_continuation-ascii x h.0) refl

pub chars-ascii : (s : List ℕ) → All IsAscii s → chars s ≡ singles s
unfolding chars
chars-ascii [] h = refl
chars-ascii (b ∷ s) h = ap (join_char b) (chars-ascii s h.1) ∙ join_char-singles b s h.1

pub bytes_of-singles : (s : List ℕ) → bytes_of (singles s) ≡ s
unfolding bytes_of
bytes_of-singles [] = refl
bytes_of-singles (b ∷ s) = ap (λ r. b ∷ r) (bytes_of-singles s)

is_whitespace-graph : (b : ℕ) → IsGraph b → is_whitespace (b ∷ []) ≡ false
unfolding is_whitespace
is_whitespace-graph b (h, h') = ground arith

words-inside :
    (word c : List ℕ) (cs : List (List ℕ))
    → is_whitespace c ≡ false
    → words word (c ∷ cs) ≡ words (word ++ c) cs
unfolding words
words-inside word c cs h = rw (words, h) refl

pub words-between :
    (word c : List ℕ) (cs : List (List ℕ))
    → is_whitespace c ≡ true
    → words word (c ∷ cs) ≡ emit word (words [] cs)
unfolding words
words-between word c cs h = rw (words, h) refl

pub words-singles :
    (word s : List ℕ) (rest : List (List ℕ))
    → All IsGraph s
    → words word (singles s ++ rest) ≡ words (word ++ s) rest
words-singles word [] rest h = ap (λ w. words w rest) (sym (append-nil word))
words-singles word (b ∷ s) rest h =
    words-inside word (b ∷ []) (singles s ++ rest) (is_whitespace-graph b h.0)
    ∙ words-singles (word ++ (b ∷ [])) s rest h.1
    ∙ ap (λ w. words w rest) (append_assoc word (b ∷ []) s)

trim_end-graph :
    (b : ℕ) (s : List ℕ) → All IsGraph (b ∷ s) → trim_end (singles (b ∷ s)) ≡ singles (b ∷ s)
unfolding trim_end
trim_end-graph b [] h = rw (is_whitespace (b ∷ []), is_whitespace-graph b h.0) refl
trim_end-graph b (c ∷ s) h = rw (trim_end (singles (c ∷ s)), trim_end-graph c s h.1) refl

trim_start-graph :
    (b : ℕ) (cs : List (List ℕ)) → IsGraph b → trim_start ((b ∷ []) ∷ cs) ≡ (b ∷ []) ∷ cs
unfolding trim_start
trim_start-graph b cs h = rw (is_whitespace (b ∷ []), is_whitespace-graph b h) refl

-- The end of a line that ends in a visible character.
trim_end-line :
    (s : List ℕ)
    → All IsGraph s
    → length s ≢ 0
    → trim_end (singles s ++ ((10 ∷ []) ∷ [])) ≡ singles s
unfolding trim_end is_whitespace
trim_end-line [] h ne = absurd (ne refl)
trim_end-line (b ∷ []) h ne = rw (is_whitespace (b ∷ []), is_whitespace-graph b h.0) refl
trim_end-line (b ∷ c ∷ s) h ne =
    rw (trim_end (singles (c ∷ s) ++ ((10 ∷ []) ∷ [])), trim_end-line (c ∷ s) h.1 (omega arith))
      refl

-- What stands before it stays.
trim_end-before :
    (s : List ℕ) (c : List ℕ) (cs ds : List (List ℕ))
    → trim_end ds ≡ c ∷ cs
    → trim_end (singles s ++ ds) ≡ singles s ++ (c ∷ cs)
unfolding trim_end
trim_end-before [] c cs ds h = h
trim_end-before (b ∷ []) c cs ds h = rw (trim_end ds, h) refl
trim_end-before (b ∷ x ∷ s) c cs ds h =
    rw (trim_end (singles (x ∷ s) ++ ds), trim_end-before (x ∷ s) c cs ds h) refl

module _ (b c : ℕ) (s w : List ℕ) (hb : IsGraph b) (hs : All IsAscii s)
    (hw : All IsGraph (c ∷ w)) where
  abbrev kept : List ℕ
  kept = (b ∷ s) ++ (c ∷ w)

  abbrev ended : List ℕ
  ended = (b ∷ s) ++ ((c ∷ w) ++ (10 ∷ []))

  ended-IsAscii : All IsAscii ended
  ended-IsAscii = (
    hb.1,
    All-append IsAscii s ((c ∷ w) ++ (10 ∷ [])) hs
        (All-append IsAscii (c ∷ w) (10 ∷ []) (IsGraph-IsAscii (c ∷ w) hw) (omega arith, tt)),
  )

  singles-ended : singles ended ≡ singles (b ∷ s) ++ (singles (c ∷ w) ++ ((10 ∷ []) ∷ []))
  singles-ended =
      map-append (λ x. x ∷ []) (b ∷ s) ((c ∷ w) ++ (10 ∷ []))
      ∙ ap (λ r. singles (b ∷ s) ++ r) (map-append (λ x. x ∷ []) (c ∷ w) (10 ∷ []))

  -- The end of the line is trimmed, and nothing else.
  pub trim-line : trim ended ≡ kept
  unfolding trim
  trim-line =
      ap (λ r. bytes_of (trim_end (trim_start r))) (chars-ascii ended ended-IsAscii)
      ∙ ap (λ r. bytes_of (trim_end r))
          (trim_start-graph b (singles (s ++ ((c ∷ w) ++ (10 ∷ [])))) hb ∙ singles-ended)
      ∙ ap bytes_of (
          trim_end-before (b ∷ s) (c ∷ []) (singles w) (singles (c ∷ w) ++ ((10 ∷ []) ∷ []))
            (trim_end-line (c ∷ w) hw (λ e. absurd (omega arith)))
          ∙ sym (map-append (λ x. x ∷ []) (b ∷ s) (c ∷ w)))
      ∙ bytes_of-singles kept
