-- ===== src/Firmware/Start.antt =====
-- The firmware from its start on, and the end of its receive loop.
use gibberish.Prelude.{
  ℕ, zero, suc, ◌≤◌, ◌<◌, ◌≡◌, refl, ap, ◌∙◌, sym, List, [], ◌∷◌, length, none, some, inl, inr,
  Option-cases, arith, length-replicate,
}
use gibberish.Protocol.Packet.{wire_payload_len}
use gibberish.Protocol.Peers.{new_table}
use gibberish.Storage.Manager.{BlockDevice, Manager}
use gibberish.Storage.Manager.Intact.{HasRing}
use gibberish.Storage.Ring.Refine.{new_ring-Holds}
use gibberish.Radio.Backoff.Schedule.{new_backoff-Queued}
use gibberish.Radio.BleGate.Gate.{start}
use gibberish.Radio.Coex.{new_arbiter}
use gibberish.Radio.Dedup.Memory.{new_filter-IsFilter}
use gibberish.Radio.Phy.{ReceivedMeshPacket, RadioManager, poll_rx}
use gibberish.Firmware.Node.{Node, new_node}
use gibberish.Firmware.Receive.{on_frame, add_line, receive_loop, receive_frames}
use gibberish.Firmware.Loop.{Inputs, turns}
use gibberish.Firmware.Shared.{HasQueue}
use gibberish.Firmware.Invariant.{HasPeers, IsNode}
use gibberish.Firmware.Turns.{turns-IsNode}

new_node-IsNode : (id : ℕ) (mac : List ℕ) (interval : ℕ) → IsNode (new_node id mac interval)
unfolding new_node HasQueue HasRing HasPeers new_table new_arbiter
new_node-IsNode id mac interval = record {
  shared = record {
    queue = ([], new_backoff-Queued);
    ring = ([], new_ring-Holds);
    filter = new_filter-IsFilter;
  };
  parser = record {
    buffer_len = length-replicate {A = ℕ} wire_payload_len 0;
    idx_in = omega arith;
  };
  peers = ([], record { packed = refl; small = omega arith; distinct = tt; no_zero = tt });
  gate = start;
  arbiter = record { in_cycle = omega arith };
}

-- From the start on, however long the firmware runs, whatever frames, bytes and button presses come and
-- whatever the card and the radio answer: the transmit queue and the ring hold packets within their
-- bounds, the filter's arrays and the parser's buffer keep their sizes with the indices inside, the peer
-- table has at most four peers, none twice, the pairing gate is in a state that its own events reach, and
-- the arbiter's time is in its cycle.
pub run-IsNode :
    {D : Type 0} (crc32 : List ℕ → ℕ) (dev : BlockDevice D) (is : List Inputs) (storage : Manager D)
    → (id : ℕ) (mac : List ℕ) (interval : ℕ)
    → IsNode (turns crc32 dev is (storage, new_node id mac interval)).0.1
run-IsNode crc32 dev is storage id mac interval =
    turns-IsNode crc32 dev is storage (new_node id mac interval) (new_node-IsNode id mac interval)

-- A poll that returns a packet has taken a frame.
poll_rx-fewer :
    (m : RadioManager) (frames : List (List ℕ)) (rx : ReceivedMeshPacket)
    → (poll_rx m frames).0 ≡ some rx
    → length (poll_rx m frames).1 < length frames
unfolding poll_rx
poll_rx-fewer m [] rx e = absurd (ground arith)
poll_rx-fewer m (raw ∷ frames) rx e = ground (arith, poll_rx-fewer m frames rx)

poll_rx-nothing :
    (m : RadioManager) (frames : List (List ℕ)) → length frames ≤ 0 → (poll_rx m frames).0 ≡ none
unfolding poll_rx
poll_rx-nothing m [] h = refl
poll_rx-nothing m (raw ∷ frames) h = absurd (omega arith)

-- A turn of the loop, with a frame and without one.
receive_loop-next :
    (fuel : ℕ) (random : ℕ → ℕ) (frames : List (List ℕ)) (n : Node) (rx : ReceivedMeshPacket)
    → (poll_rx n.radio frames).0 ≡ some rx
    → receive_loop (suc fuel) random frames n ≡ (
        let left = (poll_rx n.radio frames).1 in
        let handled = on_frame (random (length left)) rx n in
        let later = receive_loop fuel random left handled.0 in
        (later.0, add_line handled.1 later.1))
unfolding receive_loop
receive_loop-next fuel random frames n rx e = rw (receive_loop, e) refl

receive_loop-stop :
    (fuel : ℕ) (random : ℕ → ℕ) (frames : List (List ℕ)) (n : Node)
    → (poll_rx n.radio frames).0 ≡ none
    → receive_loop fuel random frames n ≡ (n, [])
unfolding receive_loop
receive_loop-stop zero random frames n e = refl
receive_loop-stop (suc fuel) random frames n e = rw (receive_loop, e) refl

receive_loop-agree :
    (f g : ℕ) (random : ℕ → ℕ) (frames : List (List ℕ)) (n : Node)
    → length frames ≤ f
    → length frames ≤ g
    → receive_loop f random frames n ≡ receive_loop g random frames n
receive_loop-agree zero g random frames n a b =
    let e = poll_rx-nothing n.radio frames a in
    receive_loop-stop zero random frames n e ∙ sym (receive_loop-stop g random frames n e)
receive_loop-agree (suc f) zero random frames n a b =
    let e = poll_rx-nothing n.radio frames b in
    receive_loop-stop (suc f) random frames n e ∙ sym (receive_loop-stop zero random frames n e)
receive_loop-agree (suc f) (suc g) random frames n a b =
    elim (Option-cases (poll_rx n.radio frames).0) [
      | inl e ↦
          receive_loop-stop (suc f) random frames n e
          ∙ sym (receive_loop-stop (suc g) random frames n e)
      | inr (rx, e) ↦
          let left = (poll_rx n.radio frames).1 in
          let handled = on_frame (random (length left)) rx n in
          let fewer = poll_rx-fewer n.radio frames rx e in
          let rest = receive_loop-agree f g random left handled.0 (omega arith) (omega arith) in
          receive_loop-next f random frames n rx e
          ∙ ap (λ later. (later.0, add_line handled.1 later.1)) rest
          ∙ sym (receive_loop-next g random frames n rx e)
    ]

-- The loop over the received frames ends: a turn for each frame that the radio holds is enough, and with
-- any larger number of turns the state and the lines are the same.
pub receive_loop-enough :
    (fuel : ℕ) (random : ℕ → ℕ) (frames : List (List ℕ)) (n : Node)
    → length frames ≤ fuel
    → receive_loop fuel random frames n ≡ receive_frames random frames n
unfolding receive_frames
receive_loop-enough fuel random frames n a =
    receive_loop-agree fuel (length frames) random frames n a (omega arith)
