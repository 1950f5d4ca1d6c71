-- ===== src/Firmware/Relaying.antt =====
-- What a dongle relays: its transmit queue after a frame.
use Prim.Native.Nat.{bit_and}
use gibberish.Prelude.{◌+◌, ◌-◌, min, Bool, ◌&&◌, ◌||◌, if◌then◌else◌, leb, ltb, ◌==◌}
use gibberish.Protocol.Packet.{MeshPacket}
use gibberish.Radio.Backoff.Queue.{Waiting, cancel, enqueue}
use gibberish.Radio.Phy.{ReceivedMeshPacket}
use gibberish.Firmware.Node.{Node}

-- The copy that a relay sends: one hop less to live, one more behind it, 255 at most.
unfoldable pub aged : MeshPacket → MeshPacket
aged p = record p {
  header = record p.header { ttl = p.header.ttl - 1; hop_count = min (p.header.hop_count + 1) 255 };
}

-- A frame of the mesh: its tag is one of the two, and it is no telemetry.
unfoldable pub is_mesh : MeshPacket → Bool
is_mesh p =
    (p.header.network_tag == 0x4749424245524953 || p.header.network_tag == 0xD75118D87E4159D2)
    && bit_and p.header.flags 0x20 == 0

unfoldable pub relayed : ReceivedMeshPacket → Waiting → Waiting
relayed rx w = if leb 30 rx.lqi && ltb 0 rx.packet.header.ttl then enqueue w (aged rx.packet) else w

-- The packets that wait after a frame, for what waited before and whether the packet was seen.
unfoldable pub waiting_after : ReceivedMeshPacket → Bool → Waiting → Waiting
waiting_after rx seen w =
    let left = cancel rx.packet.header.msg_id rx.packet.header.chunk_idx w in
    if is_mesh rx.packet then (if seen then left else relayed rx left) else w
