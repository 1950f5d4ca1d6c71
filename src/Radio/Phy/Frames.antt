-- ===== src/Radio/Phy/Frames.antt =====
-- A frame that was assembled is parsed back.
use gibberish.Prelude.{
  ℕ, ◌≡◌, Bool, none, some, List, [], ◌∷◌, length, replicate, inl, inr, refl, Bool-cases,
  if◌then◌else◌,
}
use gibberish.Prelude.Bytes.{
  buffer_laws, slice, write_at, byte_at, slice-four, byte_at-write_at_inside,
}
use gibberish.Protocol.Consts.{mesh_header_len, phy_mtu}
use gibberish.Protocol.Header
use gibberish.Protocol.Header.RoundTrip.{length-serialize, header_roundtrip}
use gibberish.Protocol.Packet.{MeshPacket, IsPacket}
use gibberish.Radio.Phy.{assemble_phy_frame, parse_phy_frame_with_validator}

pub length-assemble :
    (mac : List ℕ) (p : MeshPacket) (seq : ℕ) (out : List ℕ)
    → length (assemble_phy_frame mac p seq out) ≡ length out
unfolding assemble_phy_frame
length-assemble mac p seq out = simp buffer_laws

-- The two last bytes of the frame are the radio hardware's: it writes a checksum there when it sends
-- and the signal strength when it receives.
unfoldable pub on_air : List ℕ → MeshPacket → ℕ → ℕ → ℕ → List ℕ
on_air mac p seq x y =
    write_at 125 (x ∷ y ∷ []) (assemble_phy_frame mac p seq (replicate phy_mtu 0))

pub length-on_air :
    (mac : List ℕ) (p : MeshPacket) (seq x y : ℕ) → length (on_air mac p seq x y) ≡ phy_mtu
unfolding on_air
length-on_air mac p seq x y = simp (buffer_laws, length-assemble)

-- A frame assembled from a packet is parsed to that packet if the validator takes the packet's
-- network tag, and to nothing otherwise, whatever the hardware writes into its two last bytes.
pub parse_phy_frame-on_air :
    (mac : List ℕ) (p : MeshPacket) (seq x y : ℕ) (validator : ℕ → Bool)
    → IsPacket p
    → parse_phy_frame_with_validator (on_air mac p seq x y) validator
      ≡ (if validator p.header.network_tag then some p else none)
unfolding parse_phy_frame_with_validator assemble_phy_frame on_air
parse_phy_frame-on_air mac p seq x y validator v =
    elim (Bool-cases (validator p.header.network_tag)) [
      | inl taken ↦ simp (buffer_laws, length-serialize, v.payload_len, taken, header_back)
      | inr refused ↦ simp (buffer_laws, length-serialize, v.payload_len, refused, header_back)
    ]
  where
    header_back :
        Header.deserialize (Header.serialize p.header (replicate mesh_header_len 0)) ≡ p.header
    header_back = header_roundtrip p.header (replicate mesh_header_len 0) v.header_fits refl

-- The source address and the signal strength of the frame.
pub byte_at-on_air :
    (mac : List ℕ) (p : MeshPacket) (seq x y : ℕ)
    → IsPacket p
    → (slice 7 4 (on_air mac p seq x y)
        ≡ byte_at 4 mac ∷ byte_at 5 mac ∷ byte_at 6 mac ∷ byte_at 7 mac ∷ [])
      × (byte_at 125 (on_air mac p seq x y) ≡ x)
unfolding assemble_phy_frame on_air byte_at
byte_at-on_air mac p seq x y v =
    (simp (buffer_laws, slice-four), simp (buffer_laws, byte_at-write_at_inside))
