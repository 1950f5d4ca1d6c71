-- ===== src/Tests/Data.antt =====
-- A packet that the tests share.
use gibberish.Prelude.{ℕ, zero, suc, ◌<◌, All, replicate, length-replicate, arith}
use gibberish.Prelude.Bytes.{IsByte}
use gibberish.Protocol.Consts.{ciphertext_len, default_network_tag, flag_clipboard}
use gibberish.Protocol.Packet.{MeshPacket, IsPacket}

abbrev pub message : ℕ → MeshPacket
message n = record {
  header = record {
    network_tag = default_network_tag;
    msg_id = n;
    chunk_idx = 1;
    total_chunks = 2;
    ttl = 3;
    hop_count = 0;
    flags = flag_clipboard;
  };
  payload = replicate ciphertext_len 7;
}

abbrev pub hello : MeshPacket
hello = message 42

pub hello-IsPacket : IsPacket hello
hello-IsPacket = record {
  header_fits = record {
    network_tag_fits = omega arith;
    msg_id_fits = omega arith;
    chunk_idx_fits = omega arith;
    total_chunks_fits = omega arith;
    ttl_fits = omega arith;
    hop_count_fits = omega arith;
    flags_fits = omega arith;
  };
  payload_len = length-replicate {A = ℕ} ciphertext_len 7;
}

pub replicate-IsByte : (n b : ℕ) → b < 256 → All IsByte (replicate n b)
replicate-IsByte zero b h = tt
replicate-IsByte (suc n) b h = (h, replicate-IsByte n b h)
