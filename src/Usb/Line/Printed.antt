-- ===== src/Usb/Line/Printed.antt =====
-- The packets that a dongle prints arrive in the daemon, in whatever pieces the port gives the bytes.
use gibberish.Prelude.{
  ℕ, ◌*◌, ◌<◌, ◌^◌, ◌≡◌, ◌≢◌, refl, sym, ap, ◌∙◌, subst, Bool, true, false, List, [], ◌∷◌, ◌++◌,
  map, append_assoc, some, length, ◌==◌, ne→==_false, lt→ltb, length-replicate, replicate, arith,
  All,
}
use gibberish.Prelude.Bytes.{IsByte, to_be_bytes, to_be_bytes-IsByte, All-append}
use gibberish.Protocol.Packet.{IsPacket, wire_payload_len, serialize_payload}
use gibberish.Protocol.Packet.RoundTrip.{length-serialize_payload}
use gibberish.Protocol.Packet.InBytes.{serialize_payload-IsByte}
use gibberish.Usb.Text.{bytes_of, trim}
use gibberish.Usb.Text.Ascii.{IsAscii, IsGraph, IsGraph-IsAscii, trim-line}
use gibberish.Usb.Line.{
  ReceivedWirePacket, hex, dongle_to_host_line_limit, past_line, enforce_limit, poll_stream,
  pkt_prefix, pkt_line, drain_lines, put_byte, parse_pkt_line, sort_line, sort_lines,
}
use gibberish.Usb.Line.RoundTrip.{hex-IsGraph, length-hex, parse_pkt_line-pkt_line}
use gibberish.Usb.Line.Stream.{put_byte-end, put_byte-inside, poll_all, fits, poll_all-pieces}

-- A packet that a dongle can print: the ranges of the types.
pub record IsPrintable (r : ReceivedWirePacket) : Type 0 where
  pub src_fits : r.src_node_id < 2 ^ 32
  pub packet_fits : IsPacket r.packet
  pub payload_bytes : All IsByte r.packet.payload

-- `println!`
unfoldable pub print_pkt : ReceivedWirePacket → List ℕ
print_pkt r = pkt_line r.src_node_id r.packet ++ (10 ∷ [])

-- A line without an end inside is drained whole.
drain_lines-line :
    (s rest : List ℕ)
    → All (λ b. (b == 10) ≡ false) s
    → drain_lines (s ++ (10 ∷ rest))
      ≡ ((s ++ (10 ∷ [])) ∷ (drain_lines rest).0, (drain_lines rest).1)
unfolding drain_lines
drain_lines-line [] rest h = put_byte-end 10 (drain_lines rest) refl
drain_lines-line (b ∷ s) rest h =
    ap (put_byte b) (drain_lines-line s rest h.1)
    ∙ put_byte-inside b (s ++ (10 ∷ [])) (drain_lines rest).1 (drain_lines rest).0 h.0

graph_no_end : (s : List ℕ) → All IsGraph s → All (λ b. (b == 10) ≡ false) s
graph_no_end [] h = tt
graph_no_end (b ∷ s) h =
    (ne→==_false b 10 (λ e. absurd (omega (arith, h.0.0, e))), graph_no_end s h.1)

no_end-append :
    (s t : List ℕ)
    → All (λ b. (b == 10) ≡ false) s
    → All (λ b. (b == 10) ≡ false) t
    → All (λ b. (b == 10) ≡ false) (s ++ t)
no_end-append [] t h k = k
no_end-append (b ∷ s) t h k = (h.0, no_end-append s t h.1 k)

trim-line_word :
    (b : ℕ) (s w : List ℕ)
    → IsGraph b
    → All IsAscii s
    → All IsGraph w
    → length w ≢ 0
    → trim ((b ∷ s) ++ (w ++ (10 ∷ []))) ≡ (b ∷ s) ++ w
trim-line_word b s [] hb hs hw ne = absurd (ne refl)
trim-line_word b s (c ∷ w) hb hs hw ne = trim-line b c s w hb hs hw

module _ (a w : List ℕ) (ha : All IsGraph a) (hw : All IsGraph w) (nw : length w ≢ 0) where
  abbrev line : List ℕ
  line = pkt_prefix ++ (a ++ (32 ∷ w))

  abbrev before : List ℕ
  before = 80 ∷ 75 ∷ 84 ∷ 35 ∷ 32 ∷ (a ++ (32 ∷ []))

  before-IsAscii : All IsAscii before
  before-IsAscii =
      All-append IsAscii (80 ∷ 75 ∷ 84 ∷ 35 ∷ 32 ∷ []) (a ++ (32 ∷ []))
        (omega arith, (omega arith, (omega arith, (omega arith, (omega arith, tt)))))
        (All-append IsAscii a (32 ∷ []) (IsGraph-IsAscii a ha) (omega arith, tt))

  trim-printed : trim (line ++ (10 ∷ [])) ≡ line
  trim-printed =
      ap (λ r. trim (pkt_prefix ++ r))
        (append_assoc a (32 ∷ w) (10 ∷ []) ∙ sym (append_assoc a (32 ∷ []) (w ++ (10 ∷ []))))
      ∙ trim-line_word 35 before w (omega arith, omega arith) before-IsAscii hw nw
      ∙ ap (λ r. pkt_prefix ++ r) (append_assoc a (32 ∷ []) w)

  line-no_end : All (λ b. (b == 10) ≡ false) line
  line-no_end =
      no_end-append pkt_prefix (a ++ (32 ∷ w)) (refl, (refl, (refl, (refl, (refl, (refl, tt))))))
        (no_end-append a (32 ∷ w) (graph_no_end a ha) (refl, graph_no_end w hw))

  line-IsAscii : All IsAscii (line ++ (10 ∷ []))
  line-IsAscii =
      subst (λ r. All IsAscii ((pkt_prefix ++ r) ++ (10 ∷ []))) (append_assoc a (32 ∷ []) w)
        (
          omega arith,
          All-append IsAscii (before ++ w) (10 ∷ [])
              (All-append IsAscii before w before-IsAscii (IsGraph-IsAscii w hw)) (omega arith, tt),
        )

sort_line_packet :
    (is_utf8 : List ℕ → Bool) (ended trimmed : List ℕ) (r : ReceivedWirePacket)
    (p : List ReceivedWirePacket) (l : List (List ℕ))
    → is_utf8 ended ≡ true
    → trim ended ≡ trimmed
    → length trimmed ≢ 0
    → parse_pkt_line trimmed ≡ some r
    → sort_line is_utf8 ended (p, l) ≡ (r ∷ p, l)
unfolding sort_line
sort_line_packet is_utf8 ended trimmed r p l u t n e =
    rw (sort_line, u, t, ne→==_false (length trimmed) 0 n, e) refl

module _ (r : ReceivedWirePacket) (v : IsPrintable r) where
  abbrev src_hex : List ℕ
  src_hex = hex (to_be_bytes 4 r.src_node_id)

  abbrev wire_hex : List ℕ
  wire_hex = hex (serialize_payload r.packet (replicate wire_payload_len 0))

  src_hex-IsGraph : All IsGraph src_hex
  src_hex-IsGraph = hex-IsGraph (to_be_bytes 4 r.src_node_id) (to_be_bytes-IsByte 4 r.src_node_id)

  wire_hex-IsGraph : All IsGraph wire_hex
  wire_hex-IsGraph =
      hex-IsGraph (serialize_payload r.packet (replicate wire_payload_len 0))
        (serialize_payload-IsByte r.packet v.packet_fits v.payload_bytes)

  length-wire_hex : length wire_hex ≡ wire_payload_len * 2
  length-wire_hex =
      length-hex (serialize_payload r.packet (replicate wire_payload_len 0))
      ∙ ap (λ n. n * 2)
          (length-serialize_payload r.packet (replicate wire_payload_len 0)
            ∙ length-replicate {A = ℕ} wire_payload_len 0)

  wire_there : length wire_hex ≢ 0
  wire_there e = absurd (omega (arith, length-wire_hex, e))

  -- The line of a packet is sorted as that packet.
  sort_line-printed :
      (is_utf8 : List ℕ → Bool) (p : List ReceivedWirePacket) (l : List (List ℕ))
      → ((s : List ℕ) → All IsAscii s → is_utf8 s ≡ true)
      → sort_line is_utf8 (print_pkt r) (p, l) ≡ (r ∷ p, l)
  unfolding print_pkt pkt_line sort_line
  sort_line-printed is_utf8 p l ascii =
      sort_line_packet is_utf8
        (line src_hex wire_hex src_hex-IsGraph wire_hex-IsGraph wire_there ++ (10 ∷ []))
        (line src_hex wire_hex src_hex-IsGraph wire_hex-IsGraph wire_there) r p l
        (ascii _ (line-IsAscii src_hex wire_hex src_hex-IsGraph wire_hex-IsGraph wire_there))
        (trim-printed src_hex wire_hex src_hex-IsGraph wire_hex-IsGraph wire_there)
        (λ e. absurd (omega (arith, e)))
        (parse_pkt_line-pkt_line r.src_node_id r.packet v.src_fits v.packet_fits v.payload_bytes)

  drain_lines-printed :
      (rest : List ℕ)
      → drain_lines (print_pkt r ++ rest)
        ≡ (print_pkt r ∷ (drain_lines rest).0, (drain_lines rest).1)
  unfolding print_pkt pkt_line
  drain_lines-printed rest =
      ap drain_lines (
        append_assoc (line src_hex wire_hex src_hex-IsGraph wire_hex-IsGraph wire_there) (10 ∷ [])
          rest)
      ∙ drain_lines-line (line src_hex wire_hex src_hex-IsGraph wire_hex-IsGraph wire_there) rest
          (line-no_end src_hex wire_hex src_hex-IsGraph wire_hex-IsGraph wire_there)

unfoldable pub print_all : List ReceivedWirePacket → List ℕ
print_all [] = []
print_all (r ∷ rs) = print_pkt r ++ print_all rs

drain_lines-print_all :
    (rs : List ReceivedWirePacket)
    → All IsPrintable rs
    → drain_lines (print_all rs) ≡ (map print_pkt rs, [])
unfolding print_all drain_lines
drain_lines-print_all [] h = refl
drain_lines-print_all (r ∷ rs) h =
    drain_lines-printed r h.0 (print_all rs)
    ∙ ap (λ d. (print_pkt r ∷ d.0, d.1)) (drain_lines-print_all rs h.1)

sort_lines-map-print_pkt :
    (is_utf8 : List ℕ → Bool) (rs : List ReceivedWirePacket)
    → ((s : List ℕ) → All IsAscii s → is_utf8 s ≡ true)
    → All IsPrintable rs
    → sort_lines is_utf8 (map print_pkt rs) ≡ (rs, [])
unfolding sort_lines
sort_lines-map-print_pkt is_utf8 [] ascii h = refl
sort_lines-map-print_pkt is_utf8 (r ∷ rs) ascii h =
    ap (sort_line is_utf8 (print_pkt r)) (sort_lines-map-print_pkt is_utf8 rs ascii h.1)
    ∙ sort_line-printed r h.0 is_utf8 rs [] ascii

-- The packets that a dongle prints, with all fields and bytes in range, are read by the daemon in their
-- order, nothing else is read and nothing stays in the buffer, in whatever pieces the port gives the
-- bytes of the lines, if ASCII strings are UTF-8 and no poll finds more than 1,024 bytes.
pub poll_all-print_all :
    (is_utf8 : List ℕ → Bool) (rs : List ReceivedWirePacket) (pieces : List (List ℕ))
    → ((s : List ℕ) → All IsAscii s → is_utf8 s ≡ true)
    → All IsPrintable rs
    → bytes_of pieces ≡ print_all rs
    → fits pieces [] ≡ true
    → poll_all is_utf8 pieces [] ≡ ([], (rs, []))
unfolding drain_lines
poll_all-print_all is_utf8 rs pieces ascii h e f =
    poll_all-pieces is_utf8 pieces [] refl f
    ∙ ap (λ s. ((drain_lines s).1, sort_lines is_utf8 (drain_lines s).0)) e
    ∙ ap (λ d. (d.1, sort_lines is_utf8 d.0)) (drain_lines-print_all rs h)
    ∙ ap (λ x. ([], x)) (sort_lines-map-print_pkt is_utf8 rs ascii h)

past_line-line :
    (s rest : List ℕ) → All (λ b. (b == 10) ≡ false) s → past_line (s ++ (10 ∷ rest)) ≡ rest
unfolding past_line
past_line-line [] rest h = refl
past_line-line (b ∷ s) rest h = rw (past_line, h.0) (past_line-line s rest h.1)

past_line-printed :
    (r : ReceivedWirePacket) (rest : List ℕ)
    → IsPrintable r
    → past_line (print_pkt r ++ rest) ≡ rest
unfolding print_pkt pkt_line
past_line-printed r rest v =
    let s =
      line (src_hex r v) (wire_hex r v) (src_hex-IsGraph r v) (wire_hex-IsGraph r v)
        (wire_there r v) in
    ap past_line (append_assoc s (10 ∷ []) rest)
    ∙ past_line-line s rest (
        line-no_end (src_hex r v) (wire_hex r v) (src_hex-IsGraph r v) (wire_hex-IsGraph r v)
          (wire_there r v))

-- A poll that reads bytes and finds more than 1,024 in the buffer, the first of them the line of a packet
-- with all fields and bytes in range, gives what the bytes behind that line give: the packet is lost.
pub poll_stream-print_pkt :
    (is_utf8 : List ℕ → Bool) (r : ReceivedWirePacket) (chunk buf rest : List ℕ)
    → IsPrintable r
    → buf ++ chunk ≡ print_pkt r ++ rest
    → dongle_to_host_line_limit < length (buf ++ chunk)
    → length chunk ≢ 0
    → poll_stream is_utf8 chunk buf
      ≡ ((drain_lines rest).1, sort_lines is_utf8 (drain_lines rest).0)
unfolding poll_stream enforce_limit
poll_stream-print_pkt is_utf8 r chunk buf rest v e long n =
    rw
      (
        ne→==_false (length chunk) 0 n,
        lt→ltb dongle_to_host_line_limit (length (buf ++ chunk)) long,
      )
      (ap (λ s. ((drain_lines s).1, sort_lines is_utf8 (drain_lines s).0))
        (ap past_line e ∙ past_line-printed r rest v))
