-- ===== src/Radio/Dedup.antt =====
-- `SlidingBloomFilter` of apps/gibberish-firmware/src/radio/dedup.rs: two Bloom filters, one of them
-- filled, and the 64 packets seen last. `i * h2` is the plain product of the source, which wraps
-- round when overflow checks are off.
pub mod AllSet
pub mod Memory
use Prim.Native.Nat.{bit_xor}
use gibberish.Prelude.{
  ℕ, zero, suc, ◌+◌, ◌*◌, ◌/◌, ◌%◌, ◌^◌, Bool, true, false, not, ◌&&◌, ◌||◌, List, [], ◌∷◌, get_or,
  set, replicate, leb, ◌==◌, if◌then◌else◌,
}
use gibberish.Prelude.Bits.{test_bit, set_bit}

abbrev pub bloom_bits : ℕ
bloom_bits = 10240

abbrev pub bloom_words : ℕ
bloom_words = 160

abbrev pub epoch_threshold : ℕ
epoch_threshold = 512

abbrev pub lru_size : ℕ
lru_size = 64

pub record SlidingBloomFilter : Type 0 where
  pub active_epoch : List ℕ
  pub previous_epoch : List ℕ
  pub entries_in_epoch : ℕ
  pub recent_lru : List (ℕ × ℕ)
  pub lru_head : ℕ

unfoldable pub new_filter : SlidingBloomFilter
new_filter = record {
  active_epoch = replicate bloom_words 0;
  previous_epoch = replicate bloom_words 0;
  entries_in_epoch = 0;
  recent_lru = replicate lru_size (0, 0);
  lru_head = 0;
}

abbrev pub wrapping_mul : ℕ → ℕ → ℕ
wrapping_mul a b = a * b % 2 ^ 32

unfoldable pub hash_coords : ℕ → ℕ → ℕ × ℕ
hash_coords msg_id chunk_idx =
    let a = bit_xor (wrapping_mul msg_id 0x85ebca6b) (wrapping_mul chunk_idx 0xc2b2ae35) in
    let h1 = wrapping_mul (bit_xor a (a / 2 ^ 16)) 0x85ebca6b in
    let b = bit_xor (wrapping_mul msg_id 0xcc9e2d51) (wrapping_mul chunk_idx 0x1b873593) in
    let h2 = wrapping_mul (bit_xor b (b / 2 ^ 13)) 0x5bd1e995 in (h1, if h2 == 0 then 1 else h2)

unfoldable pub bit_idx : ℕ × ℕ → ℕ → ℕ
bit_idx h i = (h.0 + wrapping_mul i h.1) % 2 ^ 32 % bloom_bits

unfoldable pub has_bit : List ℕ → ℕ → Bool
has_bit words idx = test_bit (get_or words (idx / 64) 0) (idx % 64)

unfoldable pub put_bit : List ℕ → ℕ → List ℕ
put_bit words idx = set words (idx / 64) (set_bit (get_or words (idx / 64) 0) (idx % 64))

-- `for i in 0..LRU_SIZE`
unfoldable pub in_lru : ℕ × ℕ → List (ℕ × ℕ) → Bool
in_lru key [] = false
in_lru key (entry ∷ rest) =
    let later = in_lru key rest in if entry.0 == key.0 && entry.1 == key.1 then true else later

-- `for i in 0..7`, with `rounds` to go from `i` on
unfoldable pub contains_loop : ℕ → ℕ → ℕ × ℕ → SlidingBloomFilter → Bool
contains_loop zero i h f = true
contains_loop (suc rounds) i h f =
    let later = contains_loop rounds (i + 1) h f in
    let in_active = has_bit f.active_epoch (bit_idx h i) in
    let in_prev = has_bit f.previous_epoch (bit_idx h i) in
    if not in_active && not in_prev then false else later

unfoldable pub contains : SlidingBloomFilter → ℕ × ℕ → Bool
contains f key =
    if in_lru key f.recent_lru then true else contains_loop 7 0 (hash_coords key.0 key.1) f

unfoldable pub insert_loop : ℕ → ℕ → ℕ × ℕ → List ℕ → List ℕ
insert_loop zero i h words = words
insert_loop (suc rounds) i h words = insert_loop rounds (i + 1) h (put_bit words (bit_idx h i))

-- The turnover of the epoch.
unfoldable pub turn_over : SlidingBloomFilter → SlidingBloomFilter
turn_over f =
    if leb epoch_threshold f.entries_in_epoch
    then record f {
      previous_epoch = f.active_epoch;
      active_epoch = replicate bloom_words 0;
      entries_in_epoch = 0;
    }
    else f

unfoldable pub insert : SlidingBloomFilter → ℕ × ℕ → SlidingBloomFilter
insert f key =
    let f = record f {
      recent_lru = set f.recent_lru f.lru_head key;
      lru_head = (f.lru_head + 1) % lru_size;
    } in
    let f = turn_over f in
    record f {
      active_epoch = insert_loop 7 0 (hash_coords key.0 key.1) f.active_epoch;
      entries_in_epoch = f.entries_in_epoch + 1;
    }
