-- ===== src/Storage/Manager/Intact.antt =====
-- A flush leaves the ring intact, whatever the device answers.
use gibberish.Prelude.{ℕ, zero, suc, sym, subst, List, inl, inr, Bool-cases, Option-cases}
use gibberish.Protocol.Packet.{MeshPacket}
use gibberish.Storage.Ring
use gibberish.Storage.Ring.{SramRingBuffer}
use gibberish.Storage.Ring.Contents.{Holds}
use gibberish.Storage.Ring.Refine.{pop_refines}
use gibberish.Storage.Manager.{
  BlockDevice, Manager, flush_loop, flush_from_sram, is_ram_only, record_block,
}
use gibberish.Storage.Manager.Log.{next_seq}
use gibberish.Storage.Manager.Rounds.{round_empty, round_fails, round_succeeds, write_cases}

-- The ring holds some packets.
unfoldable pub HasRing : SramRingBuffer → Type 0
HasRing r = (q : List MeshPacket) × Holds r q

pub pop-HasRing : (r : SramRingBuffer) → HasRing r → HasRing (Ring.pop r).0
unfolding HasRing
pop-HasRing r (q, v) = (_, (pop_refines r q v).0)

module _ {D : Type 0} (crc32 : List ℕ → ℕ) (dev : BlockDevice D) where
  flush_loop-HasRing :
      (rounds : ℕ) (m : Manager D) (d : D) (r : SramRingBuffer)
      → HasRing r
      → HasRing (flush_loop crc32 dev rounds m d r).1
  flush_loop-HasRing zero m d r v = unfold flush_loop in v
  flush_loop-HasRing (suc rounds) m d r v = elim (Option-cases (Ring.peek r)) [
    | inl e ↦ subst (λ x. HasRing x.1) (sym (round_empty crc32 dev rounds m d r e)) v
    | inr (packet, e) ↦
        elim (write_cases
          (dev.write_block d m.current_lba (record_block crc32 (next_seq m) packet))) [
            | inl (d1, u, w) ↦
                subst (λ x. HasRing x.1)
                  (sym (round_succeeds crc32 dev rounds m d r packet e d1 u w))
                  (flush_loop-HasRing rounds _ _ (Ring.pop r).0 (pop-HasRing r v))
            | inr (d1, c, w) ↦
                subst (λ x. HasRing x.1) (sym (round_fails crc32 dev rounds m d r packet e d1 c w))
                  v
          ]
  ]

  pub flush_from_sram-HasRing :
      (m : Manager D) (r : SramRingBuffer) → HasRing r → HasRing (flush_from_sram crc32 dev m r).1
  unfolding flush_from_sram
  flush_from_sram-HasRing m r v = elim (Bool-cases (is_ram_only m.mode)) [
    | inl t ↦ rw t v
    | inr t ↦ rw t (elim (Option-cases m.device) [
      | inl e ↦ rw e v
      | inr (d, e) ↦ rw e (flush_loop-HasRing 2 m d r v)
    ])
  ]
