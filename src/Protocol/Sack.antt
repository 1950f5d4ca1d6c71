-- ===== src/Protocol/Sack.antt =====
-- `SackPayload` of frame.rs: a window of 512 chunk indices from `base_chunk` on, one bit each, 1 for
-- a missing chunk. A closure that is called in a loop is a function on the state that it captures.
pub mod Marks
pub mod RoundTrip
pub mod Visits
pub mod Counts
pub mod Closures
use gibberish.Prelude.{
  ℕ, zero, suc, ◌+◌, ◌-◌, ◌*◌, ◌/◌, ◌%◌, ◌<◌, ◌^◌, ◌≡◌, Bool, true, false, not, ◌&&◌, List, [], ◌∷◌,
  ◌++◌, replicate, length, get_or, set, all, All, leb, ltb, ◌==◌, if◌then◌else◌,
}
use gibberish.Prelude.Bits.{test_bit, set_bit, clear_bit, count_ones}
use gibberish.Prelude.Bytes.{write_at, slice, to_be_bytes, from_be_bytes, IsByte}
use gibberish.Protocol.Consts.{ciphertext_len}

abbrev pub sack_bitmask_bytes : ℕ
sack_bitmask_bytes = 64

pub record SackPayload : Type 0 where
  pub receiver_node_id : ℕ
  pub sender_node_id : ℕ
  pub base_chunk : ℕ
  pub bitmask : List ℕ

pub record IsSack (s : SackPayload) : Type 0 where
  pub receiver_fits : s.receiver_node_id < 2 ^ 32
  pub sender_fits : s.sender_node_id < 2 ^ 32
  pub base_fits : s.base_chunk < 2 ^ 16
  pub bitmask_len : length s.bitmask ≡ sack_bitmask_bytes
  pub bitmask_bytes : All IsByte s.bitmask

unfoldable pub new_sack : ℕ → ℕ → ℕ → SackPayload
new_sack receiver_node_id sender_node_id base_chunk = record {
  receiver_node_id = receiver_node_id;
  sender_node_id = sender_node_id;
  base_chunk = base_chunk;
  bitmask = replicate sack_bitmask_bytes 0;
}

-- `chunk_idx >= base && chunk_idx < base + max_chunks`
unfoldable pub in_window : SackPayload → ℕ → Bool
in_window s chunk_idx =
    leb s.base_chunk chunk_idx && ltb chunk_idx (s.base_chunk + sack_bitmask_bytes * 8)

unfoldable pub mark_missing : SackPayload → ℕ → SackPayload
unfolding in_window
mark_missing s chunk_idx =
    if in_window s chunk_idx
    then (let offset = chunk_idx - s.base_chunk in
        record s {
          bitmask =
              set s.bitmask (offset / 8) (set_bit (get_or s.bitmask (offset / 8) 0) (offset % 8));
        })
    else s

unfoldable pub mark_received : SackPayload → ℕ → SackPayload
unfolding in_window
mark_received s chunk_idx =
    if in_window s chunk_idx
    then (let offset = chunk_idx - s.base_chunk in
        record s {
          bitmask =
              set s.bitmask (offset / 8) (clear_bit (get_or s.bitmask (offset / 8) 0) (offset % 8));
        })
    else s

unfoldable pub is_missing : SackPayload → ℕ → Bool
unfolding in_window
is_missing s chunk_idx =
    if in_window s chunk_idx
    then (let offset = chunk_idx - s.base_chunk in
        test_bit (get_or s.bitmask (offset / 8) 0) (offset % 8))
    else false

count_loop : ℕ → List ℕ → ℕ
count_loop count [] = count
count_loop count (byte ∷ bytes) = count_loop (count + count_ones byte) bytes

unfoldable pub missing_count : SackPayload → ℕ
unfolding count_loop
missing_count s = count_loop 0 s.bitmask

unfoldable pub is_full_ack : SackPayload → Bool
is_full_ack s = all (λ b. b == 0) s.bitmask

module _ {A : Type 0} (f : A → ℕ → A) where
  -- `for bit in 0..8`, with `rounds` bits to go
  for_bits : ℕ → ℕ → ℕ → ℕ → A → A
  for_bits zero bit byte start acc = acc
  for_bits (suc rounds) bit byte start acc =
      for_bits rounds (bit + 1) byte start (if test_bit byte bit then f acc (start + bit) else acc)

  -- `for (byte_idx, &byte) in self.bitmask.iter().enumerate()`
  for_bytes : ℕ → ℕ → List ℕ → A → A
  unfolding for_bits
  for_bytes base byte_idx [] acc = acc
  for_bytes base byte_idx (byte ∷ bytes) acc =
      for_bytes base (byte_idx + 1) bytes
        (if byte == 0 then acc else for_bits 8 0 byte (base + byte_idx * 8) acc)

unfoldable pub for_each_missing : {A : Type 0} → SackPayload → (A → ℕ → A) → A → A
unfolding for_bytes
for_each_missing s f acc = for_bytes f s.base_chunk 0 s.bitmask acc

unfoldable pub serialize : SackPayload → List ℕ → List ℕ
serialize s out =
    let b0 = replicate (length out) 0 in
    let b1 = write_at 0 (to_be_bytes 4 s.receiver_node_id) b0 in
    let b2 = write_at 4 (to_be_bytes 4 s.sender_node_id) b1 in
    let b3 = write_at 8 (to_be_bytes 2 s.base_chunk) b2 in write_at 10 s.bitmask b3

unfoldable pub deserialize : List ℕ → SackPayload
deserialize buf = record {
  receiver_node_id = from_be_bytes (slice 0 4 buf);
  sender_node_id = from_be_bytes (slice 4 4 buf);
  base_chunk = from_be_bytes (slice 8 2 buf);
  bitmask = write_at 0 (slice 10 sack_bitmask_bytes buf) (replicate sack_bitmask_bytes 0);
}
