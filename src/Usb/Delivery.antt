-- ===== src/Usb/Delivery.antt =====
-- What the daemon sends arrives in the firmware.
use gibberish.Prelude.{
  ℕ, zero, suc, ◌+◌, ◌<◌, ◌≡◌, refl, ap, ◌∙◌, sym, List, [], ◌∷◌, length, set, replicate,
  length-set, length-replicate, arith, eq→==, inl, inr, Bool-cases,
}
use gibberish.Prelude.Bytes.{write_at, slice, write_at-whole}
use gibberish.Protocol.Consts.{is_valid_network_tag}
use gibberish.Protocol.Packet.{
  MeshPacket, IsPacket, wire_payload_len, serialize_payload, deserialize_payload,
}
use gibberish.Protocol.Packet.RoundTrip.{
  length-serialize_payload, deserialize_payload-serialize_payload,
}
use gibberish.Usb.{Dongle, sync0, sync1, payload, framed, ingest, on_payload, on_byte, receive}

-- The parser writes inside its buffer only.
pub record IsParser (d : Dongle) : Type 0 where
  pub buffer_len : length d.usb_pkt_buf ≡ wire_payload_len
  pub idx_in : d.usb_pkt_idx < wire_payload_len

write_at-cons :
    (i b : ℕ) (bytes buf : List ℕ)
    → i < length buf
    → write_at i (b ∷ bytes) buf ≡ write_at (suc i) bytes (set buf i b)
unfolding write_at
write_at-cons i b bytes [] h = absurd (omega arith)
write_at-cons zero b bytes (c ∷ buf) h = refl
write_at-cons (suc i) b bytes (c ∷ buf) h =
    ap (λ r. c ∷ r) (write_at-cons i b bytes buf (omega arith))

-- The parser in the middle of a packet.
abbrev reading : Dongle → List ℕ → ℕ → Dongle
reading d buf i = record d { usb_rx_state = payload; usb_pkt_buf = buf; usb_pkt_idx = i }

abbrev done : Dongle → List ℕ → Dongle
done d buf = record (ingest (deserialize_payload buf) (reading d buf 114)) {
  usb_pkt_idx = 0;
  usb_rx_state = sync0;
}

on_byte-last :
    (d : Dongle) (buf : List ℕ) (i b : ℕ)
    → i + 1 ≡ 114
    → on_byte b (reading d buf i) ≡ done d (set buf i b)
unfolding on_byte on_payload
on_byte-last d buf i b h = rw (eq→== (i + 1) 114 h, h) refl

on_byte-more :
    (d : Dongle) (buf : List ℕ) (i b : ℕ)
    → i + 1 < 114
    → on_byte b (reading d buf i) ≡ reading d (set buf i b) (suc i)
unfolding on_byte on_payload
on_byte-more d buf i b h = ground arith

write_at-nothing : (i : ℕ) (buf : List ℕ) → write_at i [] buf ≡ buf
unfolding write_at
write_at-nothing zero buf = refl
write_at-nothing (suc i) [] = refl
write_at-nothing (suc i) (c ∷ buf) = ap (λ r. c ∷ r) (write_at-nothing i buf)

receive-payload :
    (d : Dongle) (b : ℕ) (bytes buf : List ℕ) (i : ℕ)
    → length buf ≡ 114
    → i + length (b ∷ bytes) ≡ 114
    → receive (b ∷ bytes) (reading d buf i) ≡ done d (write_at i (b ∷ bytes) buf)
unfolding receive
receive-payload d b [] buf i n h =
    on_byte-last d buf i b (omega (arith, h))
    ∙ ap (done d)
        (sym (write_at-cons i b [] buf (omega arith) ∙ write_at-nothing (suc i) (set buf i b)))
receive-payload d b (c ∷ bytes) buf i n h =
    ap (λ e. receive (c ∷ bytes) e) (on_byte-more d buf i b (omega arith))
    ∙ (receive-payload d c bytes (set buf i b) (suc i) (length-set buf i b ∙ n) (omega arith)
        ∙ ap (done d) (sym (write_at-cons i b (c ∷ bytes) buf (omega arith))))

receive-header :
    (d : Dongle) (bytes : List ℕ)
    → d.usb_rx_state ≡ sync0
    → receive (0xAA ∷ 0x55 ∷ 0x72 ∷ bytes) d ≡ receive bytes (reading d d.usb_pkt_buf 0)
unfolding receive on_byte
receive-header d bytes h = ap (λ e. receive bytes (on_byte 0x72 (on_byte 0x55 e))) first
  where
    first : on_byte 0xAA d ≡ record d { usb_rx_state = sync1 }
    first = ground arith

-- The frame on the line: the three bytes of the header and the packet's 114.
framed-bytes :
    (p : MeshPacket) → framed p ≡ 0xAA ∷ 0x55 ∷ 0x72 ∷ serialize_payload p (replicate 114 0)
unfolding framed slice write_at
framed-bytes p =
    ap (λ r. 0xAA ∷ 0x55 ∷ 0x72 ∷ r)
      (write_at-whole (serialize_payload p (replicate 114 0)) (replicate 114 0)
        (eq→== _ _ (length-serialize_payload p (replicate 114 0))))

done-ingest :
    (p : MeshPacket) (d : Dongle) (buf : List ℕ)
    → deserialize_payload buf ≡ p
    → done d buf ≡ record (ingest p d) { usb_rx_state = sync0; usb_pkt_buf = buf; usb_pkt_idx = 0 }
unfolding ingest
done-ingest p d buf e =
    ap (λ q. record (ingest q (reading d buf 114)) { usb_pkt_idx = 0; usb_rx_state = sync0 }) e
    ∙ elim (Bool-cases (is_valid_network_tag p.header.network_tag)) [
      | inl t ↦ simp t
      | inr t ↦ simp t
    ]

receive-whole :
    (d : Dongle) (bytes buf : List ℕ)
    → length bytes ≡ 114
    → length buf ≡ 114
    → receive bytes (reading d buf 0) ≡ done d bytes
receive-whole d [] buf h n = absurd (omega arith)
receive-whole d (b ∷ bytes) buf h n =
    receive-payload d b bytes buf 0 n (omega (arith, h))
    ∙ ap (done d) (write_at-whole (b ∷ bytes) buf (eq→== _ _ (h ∙ sym n)))

-- A packet that the daemon sends reaches the firmware byte for byte: in whatever state the rest of the
-- dongle is, a parser that waits for a frame takes it, ends waiting for the next one, and has
-- done what is done with exactly that packet, which is nothing if the network tag is not valid. The
-- packet's fields are in the ranges of their types.
pub receive-framed :
    (p : MeshPacket) (d : Dongle)
    → IsPacket p
    → IsParser d
    → d.usb_rx_state ≡ sync0
    → receive (framed p) d ≡ record (ingest p d) {
      usb_rx_state = sync0;
      usb_pkt_buf = serialize_payload p (replicate 114 0);
      usb_pkt_idx = 0;
    }
receive-framed p d v r waiting =
    let bytes = serialize_payload p (replicate 114 0) in
    ap (λ line. receive line d) (framed-bytes p)
    ∙ (receive-header d bytes waiting
        ∙ (receive-whole d bytes d.usb_pkt_buf (length-serialize_payload p (replicate 114 0))
              r.buffer_len
            ∙ done-ingest p d bytes (
                deserialize_payload-serialize_payload p (replicate 114 0) v
                  (length-replicate {A = ℕ} 114 0))))

on_byte-IsParser : (b : ℕ) (d : Dongle) → IsParser d → IsParser (on_byte b d)
unfolding on_byte on_payload ingest
on_byte-IsParser b d v = record {
  buffer_len = ground (arith, length-set d.usb_pkt_buf d.usb_pkt_idx b, v.buffer_len, v.idx_in);
  idx_in = ground (arith, v.buffer_len, v.idx_in);
}

-- No sequence of bytes makes the parser write outside its buffer.
pub receive-IsParser : (bytes : List ℕ) (d : Dongle) → IsParser d → IsParser (receive bytes d)
unfolding receive
receive-IsParser [] d v = v
receive-IsParser (b ∷ bytes) d v = receive-IsParser bytes (on_byte b d) (on_byte-IsParser b d v)
