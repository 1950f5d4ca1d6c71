-- ===== src/Firmware/Duplicates.antt =====
-- Packets that a node has seen: they are not printed for the host, buffered or relayed again.
use gibberish.Prelude.{
  ℕ, zero, suc, ◌≤◌, ◌≡◌, ◌⊎◌, inl, inr, refl, ap₂, ==→eq, ◌∙◌, Bool, true, false, ◌&&◌, ◌||◌,
  Option, none, some, List, [], ◌∷◌, length, ◌==◌, arith, Bool-cases,
}
use gibberish.Protocol.Consts.{is_valid_network_tag}
use gibberish.Protocol.Packet.{MeshPacket}
use gibberish.Radio.Dedup
use gibberish.Radio.Dedup.{SlidingBloomFilter, contains}
use gibberish.Radio.Dedup.Memory.{
  Sized, Remembers, insert-Sized, insert-Remembers, contains-Remembers,
}
use gibberish.Radio.Backoff.{is_telemetry}
use gibberish.Radio.Phy.{ReceivedMeshPacket}
use gibberish.Firmware.Node.{Node}
use gibberish.Firmware.Receive.{
  note_frame, consume_telemetry, accept_packet, drop_duplicate, on_frame, add_line, count_frame,
}

-- The key under which a packet is remembered.
abbrev pub key_of : MeshPacket → ℕ × ℕ
key_of p = (p.header.msg_id, p.header.chunk_idx)

-- Frames one after the other, each with its random number: the lines that are printed.
unfoldable pub on_frames : List (ℕ × ReceivedMeshPacket) → Node → Node × List (ℕ × MeshPacket)
on_frames [] n = (n, [])
on_frames ((random, rx) ∷ frames) n =
    let handled = on_frame random rx n in
    let later = on_frames frames handled.0 in (later.0, add_line handled.1 later.1)

-- Whether a packet with a key is among the lines.
unfoldable pub printed : ℕ × ℕ → List (ℕ × MeshPacket) → Bool
printed key [] = false
printed key ((src, p) ∷ rest) =
    (p.header.msg_id == key.0 && p.header.chunk_idx == key.1) || printed key rest

-- What a frame does to the filter: nothing, or it is inserted.
pub on_frame-filter :
    (random : ℕ) (rx : ReceivedMeshPacket) (n : Node)
    → (((on_frame random rx n).0.usb.bloom_filter ≡ n.usb.bloom_filter)
        × ((on_frame random rx n).1 ≡ none))
      ⊎ ((contains n.usb.bloom_filter (key_of rx.packet) ≡ false)
          × ((on_frame random rx n).0.usb.bloom_filter
              ≡ Dedup.insert n.usb.bloom_filter (key_of rx.packet))
          × ((on_frame random rx n).1 ≡ some (rx.src_node_id, rx.packet)))
unfolding on_frame note_frame consume_telemetry accept_packet drop_duplicate count_frame
on_frame-filter random rx n =
    elim (Bool-cases (is_valid_network_tag rx.packet.header.network_tag)) [
      | inr v ↦ rw v (inl (refl, refl))
      | inl v ↦ rw v (elim (Bool-cases (is_telemetry rx.packet)) [
        | inl t ↦ rw t (inl (refl, refl))
        | inr t ↦ rw t (elim (Bool-cases (contains n.usb.bloom_filter (key_of rx.packet))) [
          | inl k ↦ rw k (inl (refl, refl))
          | inr k ↦ rw k (inr (refl, refl, refl))
        ])
      ])
    ]

-- The node will recognize the key through `m` more insertions.
unfoldable pub Knows : ℕ → ℕ × ℕ → Node → Type 0
Knows m key n = Sized n.usb.bloom_filter × Remembers m n.usb.bloom_filter key

pub Remembers-fewer :
    (m : ℕ) (f : SlidingBloomFilter) (key : ℕ × ℕ) → Remembers (suc m) f key → Remembers m f key
unfolding Remembers
Remembers-fewer m f key (inl (a, l)) = inl (a, omega arith)
Remembers-fewer m f key (inr (a, l)) = inr (a, omega arith)

pub on_frame-Knows :
    (m : ℕ) (key : ℕ × ℕ) (random : ℕ) (rx : ReceivedMeshPacket) (n : Node)
    → Knows (suc m) key n
    → Knows m key (on_frame random rx n).0
unfolding Knows
on_frame-Knows m key random rx n (v, r) = elim (on_frame-filter random rx n) [
  | inl (same, quiet) ↦ rw same (v, Remembers-fewer m n.usb.bloom_filter key r)
  | inr (new, put, out) ↦ rw put (
    insert-Sized n.usb.bloom_filter (key_of rx.packet) v,
    insert-Remembers m n.usb.bloom_filter key (key_of rx.packet) v r,
  )
]

-- A packet with the key is not printed.
on_frame-quiet :
    (m a b : ℕ) (random : ℕ) (rx : ReceivedMeshPacket) (n : Node)
    → Knows m (a, b) n
    → printed (a, b) (add_line (on_frame random rx n).1 []) ≡ false
unfolding Knows printed add_line
on_frame-quiet m a b random rx n (v, r) = elim (on_frame-filter random rx n) [
  | inl (same, quiet) ↦ rw quiet refl
  | inr (new, put, out) ↦
      let known = contains-Remembers m n.usb.bloom_filter (a, b) r in
      rw out (differs rx.packet.header.msg_id rx.packet.header.chunk_idx new known)
]
  where
    differs :
        (i j : ℕ)
        → contains n.usb.bloom_filter (i, j) ≡ false
        → contains n.usb.bloom_filter (a, b) ≡ true
        → ((i == a && j == b) || false) ≡ false
    differs i j new known = elim (Bool-cases (i == a)) [
      | inr e ↦ rw e refl
      | inl e ↦ elim (Bool-cases (j == b)) [
        | inr f ↦ rw (e, f) refl
        | inl f ↦
            let at = ap₂ (λ x y. contains n.usb.bloom_filter (x, y)) (==→eq i a e) (==→eq j b f) in
            absurd (cc)
      ]
    ]

printed-add_line :
    (key : ℕ × ℕ) (line : Option (ℕ × MeshPacket)) (rest : List (ℕ × MeshPacket))
    → printed key (add_line line rest) ≡ (printed key (add_line line []) || printed key rest)
unfolding printed add_line
printed-add_line key none rest = refl
printed-add_line key (some (src, p)) rest = ground arith

-- A node that remembers a packet does not print it again.
pub on_frames-printed :
    (m a b : ℕ) (frames : List (ℕ × ReceivedMeshPacket)) (n : Node)
    → length frames ≤ m
    → Knows m (a, b) n
    → printed (a, b) (on_frames frames n).1 ≡ false
unfolding on_frames printed
on_frames-printed m a b [] n l k = refl
on_frames-printed zero a b ((random, rx) ∷ frames) n l k = absurd (omega arith)
on_frames-printed (suc m) a b ((random, rx) ∷ frames) n l k =
    let handled = on_frame random rx n in
    let quiet = on_frame-quiet (suc m) a b random rx n k in
    let later =
      on_frames-printed m a b frames handled.0 (omega arith)
        (on_frame-Knows m (a, b) random rx n k) in
    printed-add_line (a, b) handled.1 (on_frames frames handled.0).1
    ∙ ap₂ (λ x y. x || y) quiet later
