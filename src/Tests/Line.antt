-- ===== src/Tests/Line.antt =====
-- Lines of packets in pieces.
use gibberish.Prelude.{
  ℕ, ◌<◌, ◌≡◌, refl, true, List, [], ◌∷◌, ◌++◌, length, take, drop, ltb→lt, some, arith,
}
use gibberish.Usb.Text.{
  bytes_of, chars, join_char, is_continuation, is_whitespace, from_str_radix, digits, to_digit,
}
use gibberish.Usb.NodeId.{node_pattern, behind, piece, id_behind, parse_dongle_node_id}
use gibberish.Prelude.Bytes.{to_be_bytes, write_at, bytes_eq}
use gibberish.Protocol.Header
use gibberish.Protocol.Packet.{serialize_payload}
use gibberish.Usb.Line.{
  ReceivedWirePacket, pkt_line, hex, put_byte, drain_lines, sort_lines, poll_stream,
}
use gibberish.Usb.Line.Stream.{poll_all, fits, poll_all-pieces}
use gibberish.Usb.Line.Printed.{
  IsPrintable, print_pkt, print_all, poll_all-print_all, poll_stream-print_pkt,
}
use gibberish.Tests.Data.{hello, hello-IsPacket, replicate-IsByte}
use gibberish.Tests.Chunks.{any_text}

abbrev heard_hello : ReceivedWirePacket
heard_hello = record { src_node_id = 0xBEBCE5B8; packet = hello }

heard_hello-IsPrintable : IsPrintable heard_hello
heard_hello-IsPrintable = record {
  src_fits = omega arith;
  packet_fits = hello-IsPacket;
  payload_bytes = replicate-IsByte 96 7 (omega arith);
}

abbrev both : List ReceivedWirePacket
both = heard_hello ∷ heard_hello ∷ []

-- The end of the first line is in the second piece.
abbrev pieces : List (List ℕ)
pieces = take 100 (print_all both) ∷ drop 100 (print_all both) ∷ []

pieces_bytes : bytes_of pieces ≡ print_all both
unfolding bytes_of print_all print_pkt pkt_line hex to_be_bytes serialize_payload write_at
    Header.serialize
pieces_bytes = refl

pieces_fit : fits pieces [] ≡ true
unfolding fits print_all print_pkt pkt_line hex to_be_bytes serialize_payload write_at
    Header.serialize drain_lines put_byte
pieces_fit = refl

poll_all-print_all_example : poll_all any_text pieces [] ≡ ([], (both, []))
poll_all-print_all_example =
    poll_all-print_all any_text both pieces (λ s h. refl)
      (heard_hello-IsPrintable, (heard_hello-IsPrintable, tt)) pieces_bytes pieces_fit

abbrev log_pieces : List (List ℕ)
log_pieces = (79 ∷ []) ∷ (75 ∷ 10 ∷ 71 ∷ []) ∷ []

log_pieces_fit : fits log_pieces [] ≡ true
unfolding fits drain_lines put_byte
log_pieces_fit = refl

nothing_drained : drain_lines [] ≡ ([], [])
unfolding drain_lines
nothing_drained = refl

poll_all-pieces_example : poll_all any_text log_pieces [] ≡ (
  (drain_lines ([] ++ bytes_of log_pieces)).1,
  sort_lines any_text (drain_lines ([] ++ bytes_of log_pieces)).0,
)
poll_all-pieces_example = poll_all-pieces any_text log_pieces [] nothing_drained log_pieces_fit

abbrev four : List ℕ
four = print_all (heard_hello ∷ heard_hello ∷ both)

too_many : 1_024 < length ([] ++ (print_pkt heard_hello ++ four))
unfolding print_all print_pkt pkt_line hex to_be_bytes serialize_payload write_at Header.serialize
too_many = ltb→lt 1_024 (length ([] ++ (print_pkt heard_hello ++ four))) refl

poll_stream-print_pkt_example :
    poll_stream any_text (print_pkt heard_hello ++ four) []
    ≡ ((drain_lines four).1, sort_lines any_text (drain_lines four).0)
poll_stream-print_pkt_example =
    poll_stream-print_pkt any_text heard_hello (print_pkt heard_hello ++ four) [] four
      heard_hello-IsPrintable refl too_many (λ e. absurd (omega (arith, too_many, e)))

-- `[Node 12345678]`
banner_id :
    parse_dongle_node_id (node_pattern ++ (49 ∷ 50 ∷ 51 ∷ 52 ∷ 53 ∷ 54 ∷ 55 ∷ 56 ∷ 93 ∷ []))
    ≡ some 0x12345678
unfolding parse_dongle_node_id id_behind behind piece chars join_char is_continuation is_whitespace
    from_str_radix digits to_digit bytes_eq
banner_id = refl
