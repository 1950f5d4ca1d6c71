-- ===== src/Usb/Line/RoundTrip.antt =====
-- What the dongle prints for a packet, the daemon reads.
use gibberish.Prelude.{
  ℕ, zero, suc, ◌+◌, ◌*◌, ◌/◌, ◌%◌, ◌<◌, ◌^◌, ◌≡◌, ◌≢◌, append-nil, refl, subst, Bool, true, false,
  not, ◌&&◌, ◌==◌, ==→eq, ltb, inl, inr, Bool-cases, Option, sym, ap, ◌∙◌, List, [], ◌∷◌, ◌++◌,
  none, some, length, get_or, replicate, length-replicate, map-append, arith, All,
}
use gibberish.Prelude.Bytes.{
  IsByte, to_be_bytes, be_loop, from_be_bytes, to_be_bytes-IsByte, length-to_be_bytes,
  u32_roundtrip, All-append, bytes_eq,
}
use gibberish.Protocol.Packet.{
  MeshPacket, IsPacket, wire_payload_len, serialize_payload, deserialize_payload,
}
use gibberish.Protocol.Packet.RoundTrip.{
  length-serialize_payload, deserialize_payload-serialize_payload,
}
use gibberish.Protocol.Packet.InBytes.{serialize_payload-IsByte}
use gibberish.Usb.Text.{
  is_whitespace, emit, words, split_whitespace, to_digit, digits, from_str_radix,
}
use gibberish.Usb.Text.Ascii.{
  IsAscii, IsGraph, singles, IsGraph-IsAscii, chars-ascii, words-singles, words-between,
}
use gibberish.Usb.Line.{
  hex_digits, hex, from_hex, parse_words, parse_pkt_line, two_words, pkt_prefix, pkt_line,
}

abbrev digit : ℕ → ℕ
digit n = get_or hex_digits n 0

all_below : (ℕ → Bool) → ℕ → Bool
all_below f zero = true
all_below f (suc k) = f k && all_below f k

all_below_lem : (f : ℕ → Bool) (k n : ℕ) → all_below f k ≡ true → n < k → f n ≡ true
unfolding all_below
all_below_lem f zero n h lt = absurd (omega arith)
all_below_lem f (suc k) n h lt = elim (Bool-cases (f k)) [
  | inl t ↦ elim (Bool-cases (k == n)) [
    | inl e ↦ subst (λ i. f i ≡ true) (==→eq k n e) t
    | inr e ↦ all_below_lem f k n (sym (ap (λ b. b && all_below f k) t) ∙ h) (ground arith)
  ]
  | inr t ↦ absurd (ground (arith, sym (ap (λ b. b && all_below f k) t) ∙ h))
]

value : Option ℕ → ℕ
value none = 16
value (some v) = v

is_digit : ℕ → Bool
is_digit n =
    ltb 32 (digit n)
    && (ltb (digit n) 128 && (not (digit n == 43) && value (to_digit (digit n)) == n))

digits_digit : all_below is_digit 16 ≡ true
unfolding all_below is_digit value to_digit
digits_digit = refl

value_lem : (o : Option ℕ) (n : ℕ) → value o ≡ n → n < 16 → o ≡ some n
unfolding value
value_lem none n e h = absurd (omega arith)
value_lem (some v) n e h = ap some e

-- A digit is visible, is not a sign, and is read as its value.
digit_lem :
    (n : ℕ)
    → n < 16
    → IsGraph (digit n) × (((digit n == 43) ≡ false) × (to_digit (digit n) ≡ some n))
unfolding is_digit
digit_lem n h =
    let t : is_digit n ≡ true = all_below_lem is_digit 16 n digits_digit h in
    (
      (ground arith, ground arith),
      (ground arith, value_lem (to_digit (digit n)) n (ground arith) h),
    )

digits-digit :
    (acc n : ℕ) (s : List ℕ) → n < 16 → digits acc (digit n ∷ s) ≡ digits (acc * 16 + n) s
unfolding digits
digits-digit acc n s h = rw (digits, (digit_lem n h).1.1) refl

-- The digits of bytes are their word.
digits-hex :
    (acc : ℕ) (bytes : List ℕ)
    → All IsByte bytes
    → digits acc (hex bytes) ≡ some (be_loop acc bytes)
unfolding hex be_loop digits
digits-hex acc [] h = refl
digits-hex acc (b ∷ bytes) h =
    digits-digit acc (b / 16) (digit (b % 16) ∷ hex bytes) (omega arith)
    ∙ digits-digit (acc * 16 + b / 16) (b % 16) (hex bytes) (omega arith)
    ∙ digits-hex ((acc * 16 + b / 16) * 16 + b % 16) bytes h.1
    ∙ ap (λ x. some (be_loop x bytes)) (omega arith)

pub from_str_radix-hex :
    (bytes : List ℕ)
    → All IsByte bytes
    → length bytes ≢ 0
    → from_str_radix (hex bytes) ≡ some (from_be_bytes bytes)
unfolding from_str_radix hex from_be_bytes
from_str_radix-hex [] h ne = absurd (ne refl)
from_str_radix-hex (b ∷ bytes) h ne =
    rw (digit (b / 16) == 43, (digit_lem (b / 16) (omega (arith, h.0))).1.0)
      (digits-hex 0 (b ∷ bytes) h)

one_byte : (b : ℕ) → from_be_bytes (b ∷ []) ≡ b
unfolding from_be_bytes be_loop
one_byte b = omega arith

from_hex-hex : (bytes : List ℕ) → All IsByte bytes → from_hex (hex bytes) ≡ some bytes
unfolding from_hex hex
from_hex-hex [] h = refl
from_hex-hex (b ∷ bytes) h =
    rw
      (
        from_hex,
        from_str_radix-hex (b ∷ []) (h.0, tt) (λ e. absurd (omega arith)),
        from_hex-hex bytes h.1,
      )
      (ap (λ x. some (x ∷ bytes)) (one_byte b))

pub hex-IsGraph : (bytes : List ℕ) → All IsByte bytes → All IsGraph (hex bytes)
unfolding hex
hex-IsGraph [] h = tt
hex-IsGraph (b ∷ bytes) h = (
  (digit_lem (b / 16) (omega (arith, h.0))).0,
  ((digit_lem (b % 16) (omega arith)).0, hex-IsGraph bytes h.1),
)

pub length-hex : (bytes : List ℕ) → length (hex bytes) ≡ length bytes * 2
unfolding hex
length-hex [] = refl
length-hex (b ∷ bytes) = omega (arith, length-hex bytes)

is_whitespace-space : is_whitespace (32 ∷ []) ≡ true
unfolding is_whitespace
is_whitespace-space = refl

emit_lem : (w : List ℕ) (ws : List (List ℕ)) → length w ≢ 0 → emit w ws ≡ w ∷ ws
unfolding emit
emit_lem [] ws ne = absurd (ne refl)
emit_lem (b ∷ w) ws ne = refl

words_end : (w : List ℕ) → words w [] ≡ emit w []
unfolding words
words_end w = refl

-- The two words of a line.
split-pair :
    (a b : List ℕ)
    → All IsGraph a
    → All IsGraph b
    → length a ≢ 0
    → length b ≢ 0
    → split_whitespace (a ++ (32 ∷ b)) ≡ a ∷ b ∷ []
unfolding split_whitespace
split-pair a b ha hb na nb =
    ap (words []) (
      chars-ascii (a ++ (32 ∷ b))
        (All-append IsAscii a (32 ∷ b) (IsGraph-IsAscii a ha) (omega arith, IsGraph-IsAscii b hb))
      ∙ map-append (λ x. x ∷ []) a (32 ∷ b))
    ∙ words-singles [] a ((32 ∷ []) ∷ singles b) ha
    ∙ words-between a (32 ∷ []) (singles b) is_whitespace-space
    ∙ emit_lem a (words [] (singles b)) na
    ∙ ap (λ r. a ∷ r)
        (ap (words []) (sym (append-nil (singles b)))
          ∙ words-singles [] b [] hb
          ∙ words_end b
          ∙ emit_lem b [] nb)

parse_pkt_line-words :
    (a b : List ℕ)
    → All IsGraph a
    → All IsGraph b
    → length a ≢ 0
    → length b ≢ 0
    → parse_pkt_line (pkt_prefix ++ (a ++ (32 ∷ b))) ≡ parse_words a b
unfolding parse_pkt_line bytes_eq two_words
parse_pkt_line-words a b ha hb na nb = ap two_words (split-pair a b ha hb na nb)

parse_words-hex :
    (src_node_id : ℕ) (w : List ℕ)
    → src_node_id < 2 ^ 32
    → All IsByte w
    → length w ≡ wire_payload_len
    → parse_words (hex (to_be_bytes 4 src_node_id)) (hex w)
      ≡ some (record { src_node_id = src_node_id; packet = deserialize_payload w })
unfolding parse_words
parse_words-hex src_node_id w h hw e =
    rw
      (
        parse_words,
        length-hex (to_be_bytes 4 src_node_id),
        length-to_be_bytes 4 src_node_id,
        length-hex w,
        e,
        from_str_radix-hex (to_be_bytes 4 src_node_id) (to_be_bytes-IsByte 4 src_node_id)
            (λ z. absurd (omega (arith, length-to_be_bytes 4 src_node_id))),
        from_hex-hex w hw,
        u32_roundtrip src_node_id h,
      )
      refl

-- What the dongle prints for a packet of a node, with all fields and bytes in range, the daemon parses
-- to the same node id and packet.
pub parse_pkt_line-pkt_line :
    (src_node_id : ℕ) (packet : MeshPacket)
    → src_node_id < 2 ^ 32
    → IsPacket packet
    → All IsByte packet.payload
    → parse_pkt_line (pkt_line src_node_id packet)
      ≡ some (record { src_node_id = src_node_id; packet = packet })
unfolding pkt_line
parse_pkt_line-pkt_line src_node_id packet h v hb =
    let buf = replicate wire_payload_len 0 in
    let wire = serialize_payload packet buf in
    let bytes = serialize_payload-IsByte packet v hb in
    let e : length wire ≡ wire_payload_len =
      length-serialize_payload packet buf ∙ length-replicate {A = ℕ} wire_payload_len 0 in
    parse_pkt_line-words (hex (to_be_bytes 4 src_node_id)) (hex wire)
      (hex-IsGraph (to_be_bytes 4 src_node_id) (to_be_bytes-IsByte 4 src_node_id))
      (hex-IsGraph wire bytes)
      (λ z. absurd (
        omega (arith, length-hex (to_be_bytes 4 src_node_id), length-to_be_bytes 4 src_node_id, z)))
      (λ z. absurd (omega (arith, length-hex wire, e, z)))
    ∙ parse_words-hex src_node_id wire h bytes e
    ∙ ap (λ p. some (record { src_node_id = src_node_id; packet = p }))
        (deserialize_payload-serialize_payload packet buf v
          (length-replicate {A = ℕ} wire_payload_len 0))
