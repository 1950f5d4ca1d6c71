-- ===== src/Radio/Phy.antt =====
-- apps/gibberish-firmware/src/radio/ieee802154.rs, without the backoff queue: frames on the air, the
-- transmitter and the receiver. The radio's driver is a parameter: what `transmit_raw` answers is an
-- argument of `transmit`, and what `raw_received` yields until it is empty is an argument of
-- `poll_rx`.
pub mod Frames
pub mod Quality
pub mod Receive
use gibberish.Prelude.{
  ℕ, ◌+◌, ◌*◌, ◌/◌, ◌%◌, ◌-◌, ◌^◌, Bool, true, false, not, ◌&&◌, Option, none, some, List, [], ◌∷◌,
  length, replicate, ltb, leb, ◌==◌, if◌then◌else◌,
}
use gibberish.Prelude.Bytes.{bytes_eq, write_at, set_byte, slice, byte_at, from_be_bytes}
use gibberish.Prelude.Int.{ℤ, pos, negsuc, ltb_ℤ, as_u32, as_i8}
use gibberish.Protocol.Consts.{
  mhr_len, mesh_header_len, ciphertext_len, phy_mtu, is_valid_network_tag,
}
use gibberish.Protocol.Header
use gibberish.Protocol.Packet.{MeshPacket}

pub record ReceivedMeshPacket : Type 0 where
  pub packet : MeshPacket
  pub src_node_id : ℕ
  pub rssi : ℤ
  pub lqi : ℕ

unfoldable pub rssi_to_lqi : ℤ → ℕ
rssi_to_lqi rssi =
    if ltb_ℤ rssi (negsuc 79)
    then 0
    else if ltb_ℤ (negsuc 29) rssi
    then 255
    else let lqi_convert = (as_u32 rssi + 80) % 2 ^ 32 * 255 in lqi_convert / 50 % 256

unfoldable pub assemble_phy_frame : List ℕ → MeshPacket → ℕ → List ℕ → List ℕ
assemble_phy_frame local_mac packet frame_seq out =
    let out = set_byte 0 0x41 out in
    let out = set_byte 1 0x08 out in
    let out = set_byte 2 frame_seq out in
    let out = set_byte 3 0xFF out in
    let out = set_byte 4 0xFF out in
    let out = set_byte 5 0xFF out in
    let out = set_byte 6 0xFF out in
    let out = set_byte 7 (byte_at 4 local_mac) out in
    let out = set_byte 8 (byte_at 5 local_mac) out in
    let out = set_byte 9 (byte_at 6 local_mac) out in
    let out = set_byte 10 (byte_at 7 local_mac) out in
    let mesh_hdr_bytes = Header.serialize packet.header (replicate mesh_header_len 0) in
    let out = write_at mhr_len mesh_hdr_bytes out in
    let out = write_at (mhr_len + mesh_header_len) packet.payload out in
    let out = set_byte 125 0 out in set_byte 126 0 out

unfoldable pub parse_phy_frame_with_validator : List ℕ → (ℕ → Bool) → Option MeshPacket
parse_phy_frame_with_validator frame tag_validator =
    if ltb (length frame) (mhr_len + mesh_header_len + ciphertext_len)
    then none
    else let mesh_hdr_buf =
        write_at 0 (slice mhr_len mesh_header_len frame) (replicate mesh_header_len 0) in
      let header = Header.deserialize mesh_hdr_buf in
      let payload =
        write_at 0 (slice (mhr_len + mesh_header_len) ciphertext_len frame)
          (replicate ciphertext_len 0) in
      if not (tag_validator header.network_tag)
      then none
      else some (record { header = header; payload = payload })

unfoldable pub parse_phy_frame : List ℕ → ℕ → Option MeshPacket
parse_phy_frame frame expected_tag =
    parse_phy_frame_with_validator frame (λ tag. tag == expected_tag)

unfoldable pub parse_phy_frame_swarm : List ℕ → Option MeshPacket
parse_phy_frame_swarm frame = parse_phy_frame_with_validator frame is_valid_network_tag

-- `RadioManager`, without the driver's handle.
pub record RadioManager : Type 0 where
  pub local_mac : List ℕ
  pub local_node_id : ℕ
  pub frame_seq : ℕ

unfoldable pub new_radio : List ℕ → ℕ → RadioManager
new_radio mac node_id = record { local_mac = mac; local_node_id = node_id; frame_seq = 0 }

-- The new state, and whether the driver took the frame.
unfoldable pub transmit : (List ℕ → Bool) → RadioManager → MeshPacket → RadioManager × Bool
transmit transmit_raw m packet =
    let m = record m { frame_seq = (m.frame_seq + 1) % 256 } in
    let phy_frame = assemble_phy_frame m.local_mac packet m.frame_seq (replicate phy_mtu 0) in
    (m, transmit_raw phy_frame)

unfoldable pub is_loopback : List ℕ → List ℕ → Bool
is_loopback local_mac raw = bytes_eq (slice 8 4 raw) (slice 4 4 local_mac)

-- What `poll_rx` returns for a frame that it does not skip.
unfoldable pub received : List ℕ → MeshPacket → ReceivedMeshPacket
received raw packet =
    let rssi = as_i8 (byte_at (byte_at 0 raw - 1) raw) in
    record {
      packet = packet;
      src_node_id =
          from_be_bytes (byte_at 8 raw ∷ byte_at 9 raw ∷ byte_at 10 raw ∷ byte_at 11 raw ∷ []);
      rssi = rssi;
      lqi = rssi_to_lqi rssi;
    }

-- One turn of the loop: `none` goes on with the next frame.
unfoldable pub accept : List ℕ → List ℕ → Option ReceivedMeshPacket
accept local_mac raw =
    let len = byte_at 0 raw in
    if leb (mhr_len + mesh_header_len + ciphertext_len) len && ltb len (length raw)
    then elim (parse_phy_frame_swarm (slice 1 len raw)) [
      | none ↦ none
      | some packet ↦ if is_loopback local_mac raw then none else some (received raw packet)
    ]
    else none

-- The result, and the frames that the driver still holds.
unfoldable pub poll_rx : RadioManager → List (List ℕ) → Option ReceivedMeshPacket × List (List ℕ)
poll_rx m [] = (none, [])
poll_rx m (raw ∷ pending) =
    let next = poll_rx m pending in
    elim (accept m.local_mac raw) [ none ↦ next | some r ↦ (some r, pending) ]
