-- ===== src/Radio/Phy/Receive.antt =====
-- The receive loop.
use gibberish.Prelude.{
  ℕ, ◌<◌, ◌≡◌, Bool, true, false, not, ◌&&◌, none, some, List, [], ◌∷◌, length, inl, inr, ltb, refl,
  sym, ◌∙◌, ap, suc, Bool-cases, Option-cases, arith, if◌then◌else◌, leb,
}
use native.Mathlib.Numerals.{unary_clauses}
use gibberish.Prelude.Bytes.{
  bytes_eq, buffer_laws, slice, write_at, set_byte, byte_at, slice-four, byte_at-write_at_inside,
  from_be_bytes,
}
use gibberish.Prelude.Int.{ℤ, IsI8, as_u8, as_i8, as_i8-as_u8}
use gibberish.Protocol.Consts.{phy_mtu, is_valid_network_tag}
use gibberish.Protocol.Packet.{MeshPacket, IsPacket}
use gibberish.Radio.Phy.{
  ReceivedMeshPacket, RadioManager, rssi_to_lqi, parse_phy_frame_swarm,
  parse_phy_frame_with_validator, is_loopback, received, accept, poll_rx,
}
use gibberish.Radio.Phy.Frames.{on_air, length-on_air, parse_phy_frame-on_air, byte_at-on_air}

-- The driver's buffer after it received a frame: the length, the frame, and what was there before.
unfoldable pub driver_buffer : List ℕ → List ℕ → List ℕ
driver_buffer frame buf = write_at 1 frame (set_byte 0 phy_mtu buf)

module _ (frame buf : List ℕ) (full : length frame ≡ phy_mtu)
    (room : leb 128 (length buf) ≡ true) where
  frame_whole : slice 1 127 (driver_buffer frame buf) ≡ frame
  unfolding driver_buffer
  frame_whole = simp (buffer_laws, full, room)

  length-driver_buffer : length (driver_buffer frame buf) ≡ length buf
  unfolding driver_buffer
  length-driver_buffer = simp buffer_laws

  first : byte_at 0 (driver_buffer frame buf) ≡ phy_mtu
  unfolding driver_buffer byte_at write_at
  first =
      simp (buffer_laws, full, room)
        (byte_at-write_at_inside 0 0 (phy_mtu ∷ []) buf refl refl (ground arith))

  inside : (i : ℕ) → i < 127 → byte_at (suc i) (driver_buffer frame buf) ≡ byte_at i frame
  unfolding driver_buffer
  inside i h = simp unary_clauses at (
      byte_at-write_at_inside (suc i) 1 frame (set_byte 0 phy_mtu buf) (ground arith) (ground arith)
        (simp (buffer_laws, full, room)))

  source : slice 8 4 (driver_buffer frame buf) ≡ slice 7 4 frame
  source =
      slice-four 8 (driver_buffer frame buf) (simp (length-driver_buffer) (ground arith))
      ∙ (simp
          (
            inside 7 (omega arith),
            inside 8 (omega arith),
            inside 9 (omega arith),
            inside 10 (omega arith),
          )
          (sym (slice-four 7 frame (ground arith))))

poll_rx-skip :
    (m : RadioManager) (got : List ℕ) (pending : List (List ℕ))
    → accept m.local_mac got ≡ none
    → poll_rx m (got ∷ pending) ≡ poll_rx m pending
unfolding poll_rx
poll_rx-skip m got pending h = ground arith

poll_rx-take :
    (m : RadioManager) (got : List ℕ) (pending : List (List ℕ)) (r : ReceivedMeshPacket)
    → accept m.local_mac got ≡ some r
    → poll_rx m (got ∷ pending) ≡ (some r, pending)
unfolding poll_rx
poll_rx-take m got pending r h = ground arith

-- The four bytes of the hardware address that a frame carries as its source.
abbrev pub sender : List ℕ → List ℕ
sender mac = byte_at 4 mac ∷ byte_at 5 mac ∷ byte_at 6 mac ∷ byte_at 7 mac ∷ []

-- What the receiver makes of a packet.
unfoldable pub delivered : List ℕ → MeshPacket → ℤ → ReceivedMeshPacket
delivered mac p strength = record {
  packet = p;
  src_node_id = from_be_bytes (sender mac);
  rssi = strength;
  lqi = rssi_to_lqi strength;
}

module _ (mac : List ℕ) (p : MeshPacket) (seq y : ℕ) (strength : ℤ) (buf : List ℕ) (v : IsPacket p)
    (i8 : IsI8 strength) (room : leb 128 (length buf) ≡ true) where
  abbrev raw : List ℕ
  raw = driver_buffer (on_air mac p seq (as_u8 strength) y) buf

  abbrev frame : List ℕ
  frame = on_air mac p seq (as_u8 strength) y

  full : length frame ≡ phy_mtu
  full = length-on_air mac p seq (as_u8 strength) y

  length_byte : byte_at 0 raw ≡ phy_mtu
  length_byte = first frame buf full room

  address : slice 8 4 raw ≡ sender mac
  address = source frame buf full room ∙ (byte_at-on_air mac p seq (as_u8 strength) y v).0

  address_bytes : byte_at 8 raw ∷ byte_at 9 raw ∷ byte_at 10 raw ∷ byte_at 11 raw ∷ [] ≡ sender mac
  address_bytes =
      sym (slice-four 8 raw (simp (length-driver_buffer frame buf full room) (ground arith)))
      ∙ address

  strength_byte : as_i8 (byte_at 126 raw) ≡ strength
  strength_byte =
      ap as_i8 (
        inside frame buf full room 125 (omega arith)
        ∙ (byte_at-on_air mac p seq (as_u8 strength) y v).1)
      ∙ as_i8-as_u8 strength i8

  heard : received raw p ≡ delivered mac p strength
  unfolding received delivered
  heard = simp (length_byte, strength_byte, address_bytes)

  roomy : ltb phy_mtu (length buf) ≡ true
  roomy = ground arith

  abbrev wanted : List ℕ → Bool
  wanted local_mac =
      is_valid_network_tag p.header.network_tag && not (bytes_eq (sender mac) (slice 4 4 local_mac))

  loopback :
      (local_mac : List ℕ) → is_loopback local_mac raw ≡ bytes_eq (sender mac) (slice 4 4 local_mac)
  unfolding is_loopback
  loopback local_mac = ap (λ s. bytes_eq s (slice 4 4 local_mac)) address

  accept-driver_buffer :
      (local_mac : List ℕ)
      → accept local_mac raw ≡ (if wanted local_mac then some (delivered mac p strength) else none)
  unfolding accept parse_phy_frame_swarm
  accept-driver_buffer local_mac =
      simp
        (
          length_byte,
          length-driver_buffer frame buf full room,
          frame_whole frame buf full room,
          parse_phy_frame-on_air,
          v,
          roomy,
        )
        (elim (Bool-cases (is_valid_network_tag p.header.network_tag)) [
          | inl t ↦
              simp (t, heard, loopback local_mac)
                (elim (Bool-cases (bytes_eq (sender mac) (slice 4 4 local_mac))) [
                  | inl own ↦ simp own
                  | inr other ↦ simp other
                ])
          | inr t ↦ simp t
        ])

  -- A frame that a node sent and that the driver received with signal strength `strength` ends the
  -- loop with the packet as it was sent, the sender's address as the source and the link quality of
  -- that strength, if its network tag is valid and the source is not the node itself; otherwise the
  -- loop goes on with the frames behind it. The packet's fields and the strength are in the ranges of
  -- their types, and the driver's buffer has room for the length and the 127 bytes.
  pub poll_rx-driver_buffer :
      (m : RadioManager) (pending : List (List ℕ))
      → poll_rx m (raw ∷ pending) ≡ (
          if wanted m.local_mac
          then (some (delivered mac p strength), pending)
          else poll_rx m pending)
  poll_rx-driver_buffer m pending = elim (Bool-cases (wanted m.local_mac)) [
    | inl e ↦ simp e (poll_rx-take m raw pending _ (accept-driver_buffer m.local_mac ∙ simp e))
    | inr e ↦ simp e (poll_rx-skip m raw pending (accept-driver_buffer m.local_mac ∙ simp e))
  ]

accepted :
    (local_mac got : List ℕ) (r : ReceivedMeshPacket)
    → accept local_mac got ≡ some r
    → (is_valid_network_tag r.packet.header.network_tag ≡ true)
      × (is_loopback local_mac got ≡ false)
      × (r.lqi ≡ rssi_to_lqi r.rssi)
unfolding accept received parse_phy_frame_swarm parse_phy_frame_with_validator
accepted local_mac got r h = ground arith

-- Whatever frames the driver holds, a packet that the receive loop returns has a valid network tag
-- and the link quality of its signal strength.
pub poll_rx_admitted :
    (m : RadioManager) (pending : List (List ℕ)) (r : ReceivedMeshPacket)
    → (poll_rx m pending).0 ≡ some r
    → (is_valid_network_tag r.packet.header.network_tag ≡ true) × (r.lqi ≡ rssi_to_lqi r.rssi)
unfolding poll_rx
poll_rx_admitted m [] r h = cc
poll_rx_admitted m (got ∷ pending) r h = elim (Option-cases (accept m.local_mac got)) [
  | inl e ↦ poll_rx_admitted m pending r (ap (λ s. s.0) (sym (poll_rx-skip m got pending e)) ∙ h)
  | inr (a, e) ↦
      let same = ap (λ s. s.0) (sym (poll_rx-take m got pending a e)) ∙ h in
      let fine = accepted m.local_mac got r (e ∙ same) in (fine.0, fine.2)
]
