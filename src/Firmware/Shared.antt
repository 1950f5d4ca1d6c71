-- ===== src/Firmware/Shared.antt =====
-- The transmit queue, the ring and the duplicate filter keep their invariants, whatever the host sends.
use gibberish.Prelude.{
  ℕ, ◌+◌, ◌-◌, ◌≡◌, ◌⊎◌, inl, inr, refl, ap, ◌∙◌, sym, List, [], ◌∷◌, set, arith, Bool-cases,
  if◌then◌else◌, leb, ◌==◌, subst,
}
use gibberish.Protocol.Consts.{is_valid_network_tag}
use gibberish.Protocol.Packet.{MeshPacket, deserialize_payload}
use gibberish.Storage.Ring
use gibberish.Storage.Ring.{SramRingBuffer}
use gibberish.Storage.Ring.Refine.{push_refines}
use gibberish.Storage.Manager.Intact.{HasRing}
use gibberish.Radio.Backoff
use gibberish.Radio.Dedup.Memory.{IsFilter, insert-IsFilter}
use gibberish.Radio.Backoff.{
  BackoffController, schedule_tx, schedule_telemetry, on_overhear, take_pending, is_telemetry,
}
use gibberish.Radio.Backoff.Queue.{Waiting, Queued, has_user}
use gibberish.Radio.Backoff.Schedule.{schedule_tx_refines}
use gibberish.Radio.Backoff.Cancel.{on_overhear_refines, schedule_telemetry_refines}
use gibberish.Radio.Backoff.Take.{take_pending_refines}
use gibberish.Usb.{
  Dongle, UsbRxState, sync0, sync1, length_byte, payload, ingest, on_payload, on_byte, receive,
}

-- The transmit queue holds some packets.
unfoldable pub HasQueue : BackoffController → Type 0
HasQueue b = (w : Waiting) × Queued b w

-- The parts that the receiver and the host's line share.
pub record IsShared (d : Dongle) : Type 0 where
  pub queue : HasQueue d.backoff
  pub ring : HasRing d.sram_ring
  pub filter : IsFilter d.bloom_filter

pub schedule_tx-HasQueue :
    (b : BackoffController) (p : MeshPacket) (jitter_ms : ℕ)
    → HasQueue b
    → HasQueue (schedule_tx b p jitter_ms)
unfolding HasQueue
schedule_tx-HasQueue b p jitter_ms (w, v) = (_, schedule_tx_refines b w p jitter_ms v)

pub on_overhear-HasQueue :
    (b : BackoffController) (msg_id chunk_idx : ℕ)
    → HasQueue b
    → HasQueue (on_overhear b msg_id chunk_idx).0
unfolding HasQueue
on_overhear-HasQueue b msg_id chunk_idx (w, v) = (_, (on_overhear_refines b w msg_id chunk_idx v).0)

pub take_pending-HasQueue : (b : BackoffController) → HasQueue b → HasQueue (take_pending b).0
unfolding HasQueue
take_pending-HasQueue b (w, v) = (_, (take_pending_refines b w v).0)

pub schedule_telemetry-HasQueue :
    (b : BackoffController) (p : MeshPacket) (jitter_ms : ℕ)
    → HasQueue b
    → HasQueue (schedule_telemetry b p jitter_ms).0
unfolding HasQueue
schedule_telemetry-HasQueue b p jitter_ms (w, v) =
    let scheduled = (schedule_telemetry_refines b w p jitter_ms v).1 in
    elim (Bool-cases (has_user w)) [
      | inl u ↦ (
        w,
        subst (λ x. Queued x w)
            (sym (scheduled ∙ ap (λ t. if t then b else schedule_tx b p jitter_ms) u)) v,
      )
      | inr u ↦
          let (w', v') = schedule_tx-HasQueue b p jitter_ms (w, v) in
          (
            w',
            subst (λ x. Queued x w')
                (sym (scheduled ∙ ap (λ t. if t then b else schedule_tx b p jitter_ms) u)) v',
          )
    ]

delayed-Queued :
    (b : BackoffController) (w : Waiting) (ms : ℕ)
    → Queued b w
    → Queued (record b { backoff_remaining_ms = ms }) w
delayed-Queued b w ms v = record {
  storage = v.storage;
  head_in = v.head_in;
  count_in = v.count_in;
  tail_at = v.tail_at;
  slots = v.slots;
  counted = v.counted;
}

pub tick-HasQueue : (b : BackoffController) (ms : ℕ) → HasQueue b → HasQueue (Backoff.tick b ms).0
unfolding HasQueue Backoff.tick
tick-HasQueue b ms (w, v) = elim (Bool-cases (b.count == 0)) [
  | inl z ↦ rw z (w, v)
  | inr z ↦ rw z (elim (Bool-cases (leb b.backoff_remaining_ms ms)) [
    | inl d ↦ rw d (w, delayed-Queued b w 0 v)
    | inr d ↦ rw d (w, delayed-Queued b w (b.backoff_remaining_ms - ms) v)
  ])
]

pub push-HasRing : (r : SramRingBuffer) (p : MeshPacket) → HasRing r → HasRing (Ring.push r p).0
unfolding HasRing
push-HasRing r p (q, v) = (_, (push_refines r q p v).0)

-- What the host's packets do.
pub ingest-IsShared : (p : MeshPacket) (d : Dongle) → IsShared d → IsShared (ingest p d)
unfolding ingest
ingest-IsShared p d v = elim (Bool-cases (is_valid_network_tag p.header.network_tag)) [
  | inl t ↦ rw t (record {
    queue = schedule_tx-HasQueue d.backoff p 15 v.queue;
    ring = push-HasRing d.sram_ring p v.ring;
    filter = insert-IsFilter d.bloom_filter (p.header.msg_id, p.header.chunk_idx) v.filter;
  })
  | inr t ↦ rw t v
]

on_payload-IsShared : (b : ℕ) (d : Dongle) → IsShared d → IsShared (on_payload b d)
unfolding on_payload
on_payload-IsShared b d v = elim (Bool-cases (d.usb_pkt_idx + 1 == 114)) [
  | inl t ↦
      let stored : Dongle = record d {
        usb_pkt_buf = set d.usb_pkt_buf d.usb_pkt_idx b;
        usb_pkt_idx = d.usb_pkt_idx + 1;
      } in
      let done =
        ingest-IsShared (deserialize_payload stored.usb_pkt_buf) stored
          (record { queue = v.queue; ring = v.ring; filter = v.filter }) in
      rw t (record { queue = done.queue; ring = done.ring; filter = done.filter })
  | inr t ↦ rw t (record { queue = v.queue; ring = v.ring; filter = v.filter })
]

-- A byte moves the parser only, or it belongs to a packet.
Moves : ℕ → Dongle → Type 0
Moves b d =
    (((on_byte b d).backoff ≡ d.backoff)
      × ((on_byte b d).sram_ring ≡ d.sram_ring)
      × ((on_byte b d).bloom_filter ≡ d.bloom_filter))
    ⊎ (on_byte b d ≡ on_payload b d)

on_byte-Moves : (b : ℕ) (d : Dongle) → Moves b d
unfolding Moves on_byte
on_byte-Moves b d = go d.usb_rx_state refl
  where
    go : (s : UsbRxState) → d.usb_rx_state ≡ s → Moves b d
    go sync0 e = inl (ground (arith, e))
    go sync1 e = inl (ground (arith, e))
    go length_byte e = inl (ground (arith, e))
    go payload e = inr (ground (arith, e))

on_byte-IsShared : (b : ℕ) (d : Dongle) → IsShared d → IsShared (on_byte b d)
unfolding Moves
on_byte-IsShared b d v = elim (on_byte-Moves b d) [
  | inl (q, r, f) ↦ record {
    queue = subst HasQueue (sym q) v.queue;
    ring = subst HasRing (sym r) v.ring;
    filter = subst IsFilter (sym f) v.filter;
  }
  | inr e ↦ subst IsShared (sym e) (on_payload-IsShared b d v)
]

pub receive-IsShared : (bytes : List ℕ) (d : Dongle) → IsShared d → IsShared (receive bytes d)
unfolding receive
receive-IsShared [] d v = v
receive-IsShared (b ∷ bytes) d v = receive-IsShared bytes (on_byte b d) (on_byte-IsShared b d v)
