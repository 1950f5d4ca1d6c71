-- ===== src/Usb/Line.antt =====
-- The lines from the dongle to its daemon: `println!("#PKT# ...")` in the main loop of
-- apps/gibberish-firmware/src/main.rs, and `parse_pkt_line` and `SerialTransport::poll_stream` of
-- apps/gibberish-daemon/src/transport.rs.
pub mod RoundTrip
pub mod Stream
pub mod Printed
use gibberish.Prelude.{
  ℕ, ◌*◌, ◌/◌, ◌%◌, Bool, true, false, not, ◌&&◌, List, [], ◌∷◌, ◌++◌, Option, none, some, length,
  take, drop, get_or, replicate, ltb, ◌==◌, if◌then◌else◌,
}
use gibberish.Prelude.Bytes.{to_be_bytes, bytes_eq}
use gibberish.Protocol.Packet.{MeshPacket, wire_payload_len, serialize_payload, deserialize_payload}
use gibberish.Usb.Text.{trim, split_whitespace, from_str_radix}

abbrev pub dongle_to_host_line_limit : ℕ
dongle_to_host_line_limit = 1_024

-- `b"0123456789ABCDEF"`
abbrev pub hex_digits : List ℕ
hex_digits = 48 ∷ 49 ∷ 50 ∷ 51 ∷ 52 ∷ 53 ∷ 54 ∷ 55 ∷ 56 ∷ 57 ∷ 65 ∷ 66 ∷ 67 ∷ 68 ∷ 69 ∷ 70 ∷ []

-- The loop that fills `hex_buf`
unfoldable pub hex : List ℕ → List ℕ
hex [] = []
hex (b ∷ bytes) = get_or hex_digits (b / 16) 0 ∷ get_or hex_digits (b % 16) 0 ∷ hex bytes

-- `"#PKT# "`
abbrev pub pkt_prefix : List ℕ
pkt_prefix = 35 ∷ 80 ∷ 75 ∷ 84 ∷ 35 ∷ 32 ∷ []

-- The line, without its end. `{:08X}` prints the eight digits of a `u32`.
unfoldable pub pkt_line : ℕ → MeshPacket → List ℕ
pkt_line src_node_id packet =
    let wire_buf = serialize_payload packet (replicate wire_payload_len 0) in
    pkt_prefix ++ (hex (to_be_bytes 4 src_node_id) ++ (32 ∷ hex wire_buf))

pub record ReceivedWirePacket : Type 0 where
  pub src_node_id : ℕ
  pub packet : MeshPacket

-- `wire_hex.as_bytes().chunks(2)`; a chunk that is not UTF-8 has no digits either.
unfoldable pub from_hex : List ℕ → Option (List ℕ)
from_hex [] = some []
from_hex (a ∷ []) = elim (from_str_radix (a ∷ [])) [ none ↦ none | some x ↦ some (x ∷ []) ]
from_hex (a ∷ b ∷ rest) = elim (from_str_radix (a ∷ b ∷ [])) [
  | none ↦ none
  | some x ↦ elim (from_hex rest) [ none ↦ none | some bytes ↦ some (x ∷ bytes) ]
]

-- The two words behind the prefix.
unfoldable pub parse_words : List ℕ → List ℕ → Option ReceivedWirePacket
parse_words src_node_hex wire_hex =
    if not (length src_node_hex == 8 && length wire_hex == wire_payload_len * 2)
    then none
    else elim (from_str_radix src_node_hex) [
      | none ↦ none
      | some src_node_id ↦ elim (from_hex wire_hex) [
        | none ↦ none
        | some wire_bytes ↦
            some (record { src_node_id = src_node_id; packet = deserialize_payload wire_bytes })
      ]
    ]

unfoldable pub two_words : List (List ℕ) → Option ReceivedWirePacket
two_words (src_node_hex ∷ wire_hex ∷ []) = parse_words src_node_hex wire_hex
two_words [] = none
two_words (a ∷ []) = none
two_words (a ∷ b ∷ c ∷ rest) = none

unfoldable pub parse_pkt_line : List ℕ → Option ReceivedWirePacket
parse_pkt_line line =
    if not (bytes_eq (take 6 line) pkt_prefix)
    then none
    else two_words (split_whitespace (drop 6 line))

-- A byte in front of the lines and of what follows them.
unfoldable pub put_byte : ℕ → List (List ℕ) × List ℕ → List (List ℕ) × List ℕ
put_byte b (lines, rest) =
    if b == 10
    then ((b ∷ []) ∷ lines, rest)
    else elim lines [ [] ↦ ([], b ∷ rest) | line ∷ lines' ↦ ((b ∷ line) ∷ lines', rest) ]

-- `while let Some(pos) = ... { drain(..=pos) }`: the lines with their ends, and what stays in the buffer
unfoldable pub drain_lines : List ℕ → List (List ℕ) × List ℕ
drain_lines [] = ([], [])
drain_lines (b ∷ bytes) = put_byte b (drain_lines bytes)

-- What follows the first line's end, or nothing without one.
unfoldable pub past_line : List ℕ → List ℕ
past_line [] = []
past_line (b ∷ bytes) = let rest = past_line bytes in if b == 10 then bytes else rest

unfoldable pub enforce_limit : List ℕ → List ℕ
enforce_limit buf = if ltb dongle_to_host_line_limit (length buf) then past_line buf else buf

module _ (is_utf8 : List ℕ → Bool) where
  -- The body of the loop over the lines: what is added before what later lines add.
  unfoldable pub sort_line :
      List ℕ → List ReceivedWirePacket × List (List ℕ) → List ReceivedWirePacket × List (List ℕ)
  sort_line line (packets, logs) =
      let trimmed = trim line in
      if is_utf8 line && not (length trimmed == 0)
      then elim (parse_pkt_line trimmed) [
        | some wire_pkt ↦ (wire_pkt ∷ packets, logs)
        | none ↦ (packets, trimmed ∷ logs)
      ]
      else (packets, logs)

  unfoldable pub sort_lines : List (List ℕ) → List ReceivedWirePacket × List (List ℕ)
  sort_lines [] = ([], [])
  sort_lines (line ∷ lines) = sort_line line (sort_lines lines)

  -- `chunk` is what the port gives, at most 1,024 bytes. The buffer afterwards, the packets and the logs.
  unfoldable pub poll_stream : List ℕ → List ℕ → List ℕ × (List ReceivedWirePacket × List (List ℕ))
  poll_stream chunk read_buf =
      let drained = drain_lines (enforce_limit (read_buf ++ chunk)) in
      if length chunk == 0 then (read_buf, ([], [])) else (drained.1, sort_lines drained.0)
