-- ===== src/Firmware/Seen.antt =====
-- What the filter does for the whole node: a packet is printed for the host once, and a SACK for a
-- message of the host is not printed at all, since it has the key of the message's first chunk.
use gibberish.Prelude.{
  ℕ, zero, suc, ◌≤◌, ◌≡◌, inl, inr, refl, ap, ◌∙◌, sym, true, false, not, ◌&&◌, none, some, List,
  [], ◌∷◌, length, arith, Bool-cases, subst,
}
use gibberish.Protocol.Consts.{is_valid_network_tag}
use gibberish.Protocol.Packet.{MeshPacket}
use gibberish.Radio.Dedup.Memory.{
  Sized, insert-Sized, insert-Remembers, insert-Remembers_self, contains-Remembers,
}
use gibberish.Radio.Backoff.{is_telemetry}
use gibberish.Radio.Phy.{ReceivedMeshPacket}
use gibberish.Usb.{ingest}
use gibberish.Host.Chunks.Engine.{InFlightMessage}
use gibberish.Host.Chunks.Sacks.{sack_packet}
use gibberish.Firmware.Node.{Node}
use gibberish.Firmware.Receive.{note_frame, consume_telemetry, on_frame, count_frame}
use gibberish.Firmware.Duplicates.{
  key_of, on_frames, printed, Knows, Remembers-fewer, on_frame-filter, on_frame-Knows,
  on_frames-printed,
}

-- A frame that was printed for the host is remembered.
on_frame-remembers :
    (random : ℕ) (rx : ReceivedMeshPacket) (n : Node) (line : ℕ × MeshPacket)
    → Sized n.usb.bloom_filter
    → (on_frame random rx n).1 ≡ some line
    → Knows 512 (key_of rx.packet) (on_frame random rx n).0
unfolding Knows
on_frame-remembers random rx n line v o = elim (on_frame-filter random rx n) [
  | inl (same, quiet) ↦ absurd (ground (arith, quiet, o))
  | inr (new, put, out) ↦ rw put (
    insert-Sized n.usb.bloom_filter (key_of rx.packet) v,
    insert-Remembers_self n.usb.bloom_filter (key_of rx.packet) v,
  )
]

-- Whatever up to 512 frames follow a frame that was printed for the host, copies of it that neighbours
-- relay among them: no packet with its message id and chunk index is printed again. Its arrays have
-- their sizes at the start.
pub printed_once :
    (random : ℕ) (rx : ReceivedMeshPacket) (n : Node) (line : ℕ × MeshPacket)
    → (frames : List (ℕ × ReceivedMeshPacket)) → Sized n.usb.bloom_filter
    → (on_frame random rx n).1 ≡ some line
    → length frames ≤ 512
    → printed (key_of rx.packet) (on_frames frames (on_frame random rx n).0).1 ≡ false
printed_once random rx n line frames v o l =
    on_frames-printed 512 rx.packet.header.msg_id rx.packet.header.chunk_idx frames
      (on_frame random rx n).0 l (on_frame-remembers random rx n line v o)

ingest-Knows :
    (p : MeshPacket) (n : Node)
    → Sized n.usb.bloom_filter
    → is_valid_network_tag p.header.network_tag ≡ true
    → Knows 512 (key_of p) (record n { usb = ingest p n.usb })
unfolding Knows ingest
ingest-Knows p n v t = rw t (
  insert-Sized n.usb.bloom_filter (key_of p) v,
  insert-Remembers_self n.usb.bloom_filter (key_of p) v,
)

-- What happens to a node between two frames: a frame is heard, or the host hands a packet over.
pub data Event : Type 0 where
  heard : ℕ → ReceivedMeshPacket → Event
  handed : MeshPacket → Event

unfoldable pub on_event : Event → Node → Node
on_event (heard random rx) n = (on_frame random rx n).0
on_event (handed p) n = record n { usb = ingest p n.usb }

unfoldable pub on_events : List Event → Node → Node
on_events [] n = n
on_events (event ∷ events) n = on_events events (on_event event n)

handed-Knows :
    (m : ℕ) (key : ℕ × ℕ) (p : MeshPacket) (n : Node)
    → Knows (suc m) key n
    → Knows m key (record n { usb = ingest p n.usb })
unfolding Knows ingest
handed-Knows m key p n (v, r) = elim (Bool-cases (is_valid_network_tag p.header.network_tag)) [
  | inl t ↦ rw t (
    insert-Sized n.usb.bloom_filter (key_of p) v,
    insert-Remembers m n.usb.bloom_filter key (key_of p) v r,
  )
  | inr t ↦ rw t (v, Remembers-fewer m n.usb.bloom_filter key r)
]

on_event-Knows :
    (m : ℕ) (key : ℕ × ℕ) (event : Event) (n : Node)
    → Knows (suc m) key n
    → Knows m key (on_event event n)
unfolding on_event
on_event-Knows m key (heard random rx) n k = on_frame-Knows m key random rx n k
on_event-Knows m key (handed p) n k = handed-Knows m key p n k

on_events-Knows :
    (m : ℕ) (key : ℕ × ℕ) (events : List Event) (n : Node)
    → length events ≤ m
    → Knows m key n
    → (j : ℕ) × Knows j key (on_events events n)
unfolding on_events
on_events-Knows m key [] n l h = (m, h)
on_events-Knows zero key (event ∷ events) n l h = absurd (omega arith)
on_events-Knows (suc m) key (event ∷ events) n l h =
    on_events-Knows m key events (on_event event n) (omega arith) (on_event-Knows m key event n h)

known_is_quiet :
    (m : ℕ) (random : ℕ) (rx : ReceivedMeshPacket) (n : Node)
    → Knows m (key_of rx.packet) n
    → (on_frame random rx n).1 ≡ none
unfolding Knows
known_is_quiet m random rx n (v, r) = elim (on_frame-filter random rx n) [
  | inl (same, quiet) ↦ quiet
  | inr (new, put, out) ↦
      let known = contains-Remembers m n.usb.bloom_filter (key_of rx.packet) r in absurd (cc)
]

-- The host hands its dongle the first chunk of a message, whatever further chunks, messages and frames
-- follow, up to 512 of them in any order, and a receiver of the message answers with a SACK, which has
-- chunk index 0 too: the dongle takes the SACK for the chunk, and it does not reach the host. The chunk's
-- network tag is valid, and the arrays of the dongle's filter have their sizes.
pub sack_dropped :
    (p : MeshPacket) (n : Node) (events : List Event) (random : ℕ)
    → (rx : ReceivedMeshPacket) (receiver swarm_tag src : ℕ) (m : InFlightMessage)
    → Sized n.usb.bloom_filter
    → is_valid_network_tag p.header.network_tag ≡ true
    → p.header.chunk_idx ≡ 0
    → length events ≤ 512
    → rx.packet ≡ sack_packet receiver swarm_tag (src, p.header.msg_id) m
    → (on_frame random rx (on_events (handed p ∷ events) n)).1 ≡ none
unfolding sack_packet on_events on_event
sack_dropped p n events random rx receiver swarm_tag src m v t z l s =
    let start : Node = record n { usb = ingest p n.usb } in
    let (j, known) = on_events-Knows 512 (key_of p) events start l (ingest-Knows p n v t) in
    let same : key_of p ≡ key_of rx.packet = ap (λ i. (p.header.msg_id, i)) z ∙ ap key_of (sym s) in
    known_is_quiet j random rx (on_events events start)
      (subst (λ k. Knows j k (on_events events start)) same known)

-- Frames of another network and telemetry stay out of the mesh: they leave the duplicate filter, the
-- ring and the transmit queue as they are and print nothing for the host.
pub on_frame-kept_out :
    (random : ℕ) (rx : ReceivedMeshPacket) (n : Node)
    → (is_valid_network_tag rx.packet.header.network_tag && not (is_telemetry rx.packet)) ≡ false
    → ((on_frame random rx n).0.usb.bloom_filter ≡ n.usb.bloom_filter)
      × ((on_frame random rx n).0.usb.sram_ring ≡ n.usb.sram_ring)
      × ((on_frame random rx n).0.usb.backoff ≡ n.usb.backoff)
      × ((on_frame random rx n).1 ≡ none)
unfolding on_frame note_frame consume_telemetry count_frame
on_frame-kept_out random rx n h =
    elim (Bool-cases (is_valid_network_tag rx.packet.header.network_tag)) [
      | inr v ↦ rw v (refl, refl, refl, refl)
      | inl v ↦
          let t : is_telemetry rx.packet ≡ true = ground arith in rw (v, t) (refl, refl, refl, refl)
    ]
