-- ===== src/Usb/Text.antt =====
-- What apps/gibberish-daemon/src/transport.rs uses of Rust's strings. A string is the list of its UTF-8
-- bytes, and a character the list of its one to four.
pub mod Ascii
use gibberish.Prelude.{
  ℕ, ◌+◌, ◌*◌, ◌-◌, ◌/◌, ◌%◌, Bool, true, false, ◌&&◌, ◌||◌, List, [], ◌∷◌, ◌++◌, Option, none,
  some, leb, ltb, ◌==◌, if◌then◌else◌,
}

-- A continuation byte does not begin a character.
unfoldable pub is_continuation : ℕ → Bool
is_continuation b = leb 0x80 b && ltb b 0xC0

unfoldable pub join_char : ℕ → List (List ℕ) → List (List ℕ)
join_char b ((x ∷ c) ∷ cs) = if is_continuation x then (b ∷ x ∷ c) ∷ cs else (b ∷ []) ∷ (x ∷ c) ∷ cs
join_char b ([] ∷ cs) = (b ∷ []) ∷ cs
join_char b [] = (b ∷ []) ∷ []

-- `s.chars()`
unfoldable pub chars : List ℕ → List (List ℕ)
chars [] = []
chars (b ∷ bytes) = join_char b (chars bytes)

-- The characters back in one string.
unfoldable pub bytes_of : List (List ℕ) → List ℕ
bytes_of [] = []
bytes_of (c ∷ cs) = c ++ bytes_of cs

-- `char::is_whitespace`: the property White_Space of Unicode.
unfoldable pub is_whitespace : List ℕ → Bool
is_whitespace [] = false
is_whitespace (a ∷ []) = (leb 9 a && leb a 13) || a == 32
is_whitespace (a ∷ b ∷ []) = a == 0xC2 && (b == 0x85 || b == 0xA0)
is_whitespace (a ∷ b ∷ c ∷ []) =
    (a == 0xE1 && (b == 0x9A && c == 0x80))
    || ((a == 0xE2 && (b == 0x80 && (leb c 0x8A || (c == 0xA8 || (c == 0xA9 || c == 0xAF)))))
        || ((a == 0xE2 && (b == 0x81 && c == 0x9F)) || (a == 0xE3 && (b == 0x80 && c == 0x80))))
is_whitespace (a ∷ b ∷ c ∷ d ∷ rest) = false

unfoldable pub trim_start : List (List ℕ) → List (List ℕ)
trim_start [] = []
trim_start (c ∷ cs) = let rest = trim_start cs in if is_whitespace c then rest else c ∷ cs

unfoldable pub trim_end : List (List ℕ) → List (List ℕ)
trim_end [] = []
trim_end (c ∷ cs) = elim (trim_end cs) [
  | [] ↦ if is_whitespace c then [] else c ∷ []
  | x ∷ xs ↦ c ∷ x ∷ xs
]

unfoldable pub trim : List ℕ → List ℕ
trim s = bytes_of (trim_end (trim_start (chars s)))

unfoldable pub emit : List ℕ → List (List ℕ) → List (List ℕ)
emit [] words = words
emit (b ∷ word) words = (b ∷ word) ∷ words

-- The words of the characters, behind the beginning of a word.
unfoldable pub words : List ℕ → List (List ℕ) → List (List ℕ)
words word [] = emit word []
words word (c ∷ cs) = elim (is_whitespace c) [
  | true ↦ emit word (words [] cs)
  | false ↦ words (word ++ c) cs
]

unfoldable pub split_whitespace : List ℕ → List (List ℕ)
split_whitespace s = words [] (chars s)

-- `char::to_digit(16)`
unfoldable pub to_digit : ℕ → Option ℕ
to_digit b =
    if leb 48 b && leb b 57
    then some (b - 48)
    else (if leb 65 b && leb b 70
        then some (b - 55)
        else (if leb 97 b && leb b 102 then some (b - 87) else none))

unfoldable pub digits : ℕ → List ℕ → Option ℕ
digits acc [] = some acc
digits acc (b ∷ bytes) = elim (to_digit b) [ none ↦ none | some v ↦ digits (acc * 16 + v) bytes ]

-- `from_str_radix(s, 16)` of an unsigned type, for no more characters than the type has digits: it takes
-- one `+` before the digits.
unfoldable pub from_str_radix : List ℕ → Option ℕ
from_str_radix [] = none
from_str_radix (b ∷ []) = digits 0 (b ∷ [])
from_str_radix (b ∷ c ∷ bytes) = if b == 43 then digits 0 (c ∷ bytes) else digits 0 (b ∷ c ∷ bytes)
