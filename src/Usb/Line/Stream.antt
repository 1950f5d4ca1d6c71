-- ===== src/Usb/Line/Stream.antt =====
-- Polling a stream in pieces.
use gibberish.Prelude.{
  ℕ, ◌≡◌, refl, sym, ap, ◌∙◌, subst, ne→==_false, Bool, true, false, ◌&&◌, List, [], ◌∷◌, ◌++◌,
  append-nil, append_assoc, length, leb, ltb, ◌==◌, arith, inl, inr, Bool-cases, Option-cases, not,
}
use gibberish.Usb.Text.{bytes_of, trim}
use gibberish.Usb.Line.{
  ReceivedWirePacket, dongle_to_host_line_limit, parse_pkt_line, put_byte, drain_lines,
  enforce_limit, sort_line, sort_lines, poll_stream,
}

-- The lines of more bytes behind.
abbrev more : List (List ℕ) × List ℕ → List ℕ → List (List ℕ) × List ℕ
more (lines, rest) b = (lines ++ (drain_lines (rest ++ b)).0, (drain_lines (rest ++ b)).1)

pub put_byte-end :
    (x : ℕ) (p : List (List ℕ) × List ℕ) → (x == 10) ≡ true → put_byte x p ≡ ((x ∷ []) ∷ p.0, p.1)
unfolding put_byte
put_byte-end x (lines, rest) e = rw e refl

pub put_byte-start :
    (x : ℕ) (rest : List ℕ) → (x == 10) ≡ false → put_byte x ([], rest) ≡ ([], x ∷ rest)
unfolding put_byte
put_byte-start x rest e = rw e refl

pub put_byte-inside :
    (x : ℕ) (l rest : List ℕ) (lines : List (List ℕ))
    → (x == 10) ≡ false
    → put_byte x (l ∷ lines, rest) ≡ ((x ∷ l) ∷ lines, rest)
unfolding put_byte
put_byte-inside x l rest lines e = rw e refl

put_byte-more-false :
    (x : ℕ) (lines : List (List ℕ)) (rest b : List ℕ)
    → (x == 10) ≡ false
    → put_byte x (more (lines, rest) b) ≡ more (put_byte x (lines, rest)) b
unfolding drain_lines
put_byte-more-false x [] rest b e = ap (λ p. more p b) (sym (put_byte-start x rest e))
put_byte-more-false x (l ∷ lines) rest b e =
    put_byte-inside x l (more (lines, rest) b).1 (more (lines, rest) b).0 e
    ∙ ap (λ p. more p b) (sym (put_byte-inside x l rest lines e))

put_byte-more :
    (x : ℕ) (lines : List (List ℕ)) (rest b : List ℕ)
    → put_byte x (more (lines, rest) b) ≡ more (put_byte x (lines, rest)) b
unfolding drain_lines
put_byte-more x lines rest b = elim (Bool-cases (x == 10)) [
  | inl e ↦
      put_byte-end x (more (lines, rest) b) e
      ∙ ap (λ p. more p b) (sym (put_byte-end x (lines, rest) e))
  | inr e ↦ put_byte-more-false x lines rest b e
]

pub drain_lines-append : (a b : List ℕ) → drain_lines (a ++ b) ≡ more (drain_lines a) b
unfolding drain_lines
drain_lines-append [] b = refl
drain_lines-append (x ∷ a) b =
    ap (put_byte x) (drain_lines-append a b) ∙ put_byte-more x (drain_lines a).0 (drain_lines a).1 b

-- No line ends in the buffer.
abbrev pub IsDrained : List ℕ → Type 0
IsDrained buf = drain_lines buf ≡ ([], buf)

put_byte-IsDrained-false :
    (x : ℕ) (lines : List (List ℕ)) (rest : List ℕ)
    → IsDrained rest
    → (x == 10) ≡ false
    → IsDrained (put_byte x (lines, rest)).1
unfolding drain_lines
put_byte-IsDrained-false x [] rest h e =
    subst (λ p. IsDrained p.1) (sym (put_byte-start x rest e))
      (ap (put_byte x) h ∙ put_byte-start x rest e)
put_byte-IsDrained-false x (l ∷ lines) rest h e =
    subst (λ p. IsDrained p.1) (sym (put_byte-inside x l rest lines e)) h

put_byte-IsDrained :
    (x : ℕ) (lines : List (List ℕ)) (rest : List ℕ)
    → IsDrained rest
    → IsDrained (put_byte x (lines, rest)).1
unfolding drain_lines
put_byte-IsDrained x lines rest h = elim (Bool-cases (x == 10)) [
  | inl e ↦ subst (λ p. IsDrained p.1) (sym (put_byte-end x (lines, rest) e)) h
  | inr e ↦ put_byte-IsDrained-false x lines rest h e
]

pub drain_lines-IsDrained : (a : List ℕ) → IsDrained (drain_lines a).1
unfolding drain_lines
drain_lines-IsDrained [] = refl
drain_lines-IsDrained (x ∷ a) =
    put_byte-IsDrained x (drain_lines a).0 (drain_lines a).1 (drain_lines-IsDrained a)

-- What one poll after the other gives.
abbrev Found : Type 0
Found = List ReceivedWirePacket × List (List ℕ)

abbrev joined : Found → Found → Found
joined (p, l) (q, m) = (p ++ q, l ++ m)

-- No poll finds more bytes in the buffer than the limit.
unfoldable pub fits : List (List ℕ) → List ℕ → Bool
fits [] buf = true
fits (c ∷ cs) buf =
    leb (length (buf ++ c)) dongle_to_host_line_limit && fits cs (drain_lines (buf ++ c)).1

below_limit :
    (n : ℕ) → leb n dongle_to_host_line_limit ≡ true → ltb dongle_to_host_line_limit n ≡ false
below_limit n h = ground arith

and_true : (a b : Bool) → (a && b) ≡ true → (a ≡ true) × (b ≡ true)
and_true true b h = (refl, h)
and_true false b h = absurd (ground (arith, h))

module _ (is_utf8 : List ℕ → Bool) where
  unfoldable pub poll_all : List (List ℕ) → List ℕ → List ℕ × Found
  poll_all [] buf = (buf, ([], []))
  poll_all (c ∷ cs) buf =
      let now = poll_stream is_utf8 c buf in
      let later = poll_all cs now.0 in (later.0, joined now.1 later.1)

  sort_line-joined :
      (line : List ℕ) (p q : Found)
      → sort_line is_utf8 line (joined p q) ≡ joined (sort_line is_utf8 line p) q
  unfolding sort_line
  sort_line-joined line p q = elim (Bool-cases (is_utf8 line && not (length (trim line) == 0))) [
    | inr e ↦ rw e refl
    | inl e ↦ elim (Option-cases (parse_pkt_line (trim line))) [
      | inl n ↦ rw (e, n) refl
      | inr (r, s) ↦ rw (e, s) refl
    ]
  ]

  sort_lines-append :
      (a b : List (List ℕ))
      → sort_lines is_utf8 (a ++ b) ≡ joined (sort_lines is_utf8 a) (sort_lines is_utf8 b)
  unfolding sort_lines
  sort_lines-append [] b = refl
  sort_lines-append (l ∷ a) b =
      ap (sort_line is_utf8 l) (sort_lines-append a b)
      ∙ sort_line-joined l (sort_lines is_utf8 a) (sort_lines is_utf8 b)

  -- The lines of all bytes at once.
  abbrev at_once : List ℕ → List ℕ × Found
  at_once bytes = ((drain_lines bytes).1, sort_lines is_utf8 (drain_lines bytes).0)

  at_once-IsDrained : (buf : List ℕ) → IsDrained buf → at_once (buf ++ []) ≡ (buf, ([], []))
  unfolding sort_lines
  at_once-IsDrained buf d = ap at_once (append-nil buf) ∙ ap (λ p. (p.1, sort_lines is_utf8 p.0)) d

  poll_stream_fits :
      (c buf : List ℕ)
      → IsDrained buf
      → leb (length (buf ++ c)) dongle_to_host_line_limit ≡ true
      → poll_stream is_utf8 c buf ≡ at_once (buf ++ c)
  unfolding poll_stream enforce_limit sort_lines
  poll_stream_fits [] buf d h = sym (at_once-IsDrained buf d)
  poll_stream_fits (x ∷ c) buf d h =
      rw
        (
          ne→==_false (length (x ∷ c)) 0 (λ e. absurd (omega arith)),
          below_limit (length (buf ++ (x ∷ c))) h,
        )
        refl

  -- However a stream is cut into the pieces that the polls read, the packets and the logs are those of
  -- the lines of the whole stream, as long as no poll finds more than 1,024 bytes.
  pub poll_all-pieces :
      (cs : List (List ℕ)) (buf : List ℕ)
      → IsDrained buf
      → fits cs buf ≡ true
      → poll_all cs buf ≡ (
        (drain_lines (buf ++ bytes_of cs)).1,
        sort_lines is_utf8 (drain_lines (buf ++ bytes_of cs)).0,
      )
  unfolding poll_all fits bytes_of sort_lines
  poll_all-pieces [] buf d h = sym (at_once-IsDrained buf d)
  poll_all-pieces (c ∷ cs) buf d h =
      let d' = drain_lines (buf ++ c) in
      let rest = bytes_of cs in
      let both = and_true (leb (length (buf ++ c)) dongle_to_host_line_limit) (fits cs d'.1) h in
      ap (λ r. ((poll_all cs r.0).0, joined r.1 (poll_all cs r.0).1))
        (poll_stream_fits c buf d both.0)
      ∙ ap (λ r. (r.0, joined (sort_lines is_utf8 d'.0) r.1))
          (poll_all-pieces cs d'.1 (drain_lines-IsDrained (buf ++ c)) both.1)
      ∙ ap (λ f. ((drain_lines (d'.1 ++ rest)).1, f))
          (sym (sort_lines-append d'.0 (drain_lines (d'.1 ++ rest)).0))
      ∙ ap (λ p. (p.1, sort_lines is_utf8 p.0)) (sym (drain_lines-append (buf ++ c) rest))
      ∙ ap at_once (append_assoc buf c rest)
