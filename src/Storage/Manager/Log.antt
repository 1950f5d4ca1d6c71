-- ===== src/Storage/Manager/Log.antt =====
-- The writes that a device confirmed, and what a flush of the ring leaves.
use gibberish.Prelude.{
  ℕ, ◌+◌, ◌<◌, ◌≡◌, get_elem?, ◌⊎◌, refl, some, List, [], ◌∷◌, ◌++◌, length, min, take, drop, arith,
  leb, if◌then◌else◌, saturating_add,
}
use gibberish.Protocol.Packet.{MeshPacket}
use gibberish.Protocol.Telemetry.{ram_only}
use gibberish.Storage.Error.{StorageError, ok, err}
use gibberish.Storage.Ring.{SramRingBuffer}
use gibberish.Storage.Ring.Contents.{Holds}
use gibberish.Storage.Manager.{BlockDevice, Manager, first_lba, record_block}

-- A write that the device confirmed: the block's number and its content.
abbrev pub Write : Type 0
Write = ℕ × List ℕ

-- The device that also keeps the writes it confirmed, in order.
unfoldable pub logging : {D : Type 0} → BlockDevice D → BlockDevice (D × List Write)
logging dev = record {
  read_block =
      λ d lba buf. let (d', buf', res) = dev.read_block d.0 lba buf in ((d', d.1), buf', res);
  write_block = λ d lba buf.
      let (d', res) = dev.write_block d.0 lba buf in
      ((d', elim res [ ok u ↦ d.1 ++ ((lba, buf) ∷ []) | err e ↦ d.1 ]), res);
}

-- The confirmed writes to the chunk container, without those to the two checkpoint blocks.
unfoldable pub container : List Write → List Write
container [] = []
container ((lba, buf) ∷ log) =
    if leb first_lba lba then (lba, buf) ∷ container log else container log

-- The writes that store packets one behind the other, numbered from `sequence + 1` on.
unfoldable pub stored : (List ℕ → ℕ) → ℕ → ℕ → List MeshPacket → List Write
stored crc32 sequence lba [] = []
stored crc32 sequence lba (p ∷ ps) =
    (lba, record_block crc32 (sequence + 1) p) ∷ stored crc32 (sequence + 1) (lba + 1) ps

pub container-append : (a b : List Write) → container (a ++ b) ≡ container a ++ container b
unfolding container
container-append [] b = refl
container-append ((lba, buf) ∷ a) b = ground (arith, container-append a b)

-- The write that the device refused, leaving its state `device`: the packet `p` behind the last block.
pub record Refused {D : Type 0} (crc32 : List ℕ → ℕ) (dev : BlockDevice D) (sequence lba : ℕ)
    (p : MeshPacket) (device : D) : Type 0 where
  pub device_before : D
  pub error : StorageError
  pub refusal :
      dev.write_block device_before lba (record_block crc32 (sequence + 1) p) ≡ (device, err error)

-- The state after `k` packets of the queue `q` were stored in at most `rounds` rounds, from the
-- state `m`, `log`. It stops early only if the device refuses the write of the next packet.
pub record Stored {D : Type 0} (crc32 : List ℕ → ℕ) (dev : BlockDevice D) (rounds : ℕ)
    (m : Manager (D × List Write)) (log : List Write) (q : List MeshPacket) (k : ℕ)
    (out : Manager (D × List Write) × SramRingBuffer) : Type 0 where
  pub sequence : out.0.current_sequence ≡ m.current_sequence + k
  pub lba : out.0.current_lba ≡ m.current_lba + k
  pub ring : Holds out.1 (drop k q)
  pub device : D
  pub log_after : List Write
  pub device_is : out.0.device ≡ some (device, log_after)
  pub written :
      container log_after
      ≡ container log ++ stored crc32 m.current_sequence m.current_lba (take k q)
  pub stopped :
      ((out.0.mode ≡ m.mode) × (k ≡ min rounds (length q)))
      ⊎ ((out.0.mode ≡ ram_only)
          × (k < min rounds (length q))
          × ((p : MeshPacket) × (get_elem? q k ≡ some p)
              × Refused crc32 dev (m.current_sequence + k) (m.current_lba + k) p device))

-- What the manager counts up to: `u64` and `u32` saturate at these.
abbrev pub next_seq : {D : Type 0} → Manager D → ℕ
next_seq m = saturating_add 18446744073709551615 m.current_sequence 1

abbrev pub next_lba : {D : Type 0} → Manager D → ℕ
next_lba m = saturating_add 4294967295 m.current_lba 1
