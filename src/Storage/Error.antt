-- ===== src/Storage/Error.antt =====
-- `StorageError` of crates/gibberish-storage/src/fat32_container.rs, and Rust's `Result` with it.
use gibberish.Prelude.{Option, none, some}

pub data StorageError : Type 0 where
  device_error torn_write_detected invalid_magic crc_mismatch : StorageError
  buffer_too_small sector_out_of_bounds : StorageError

pub data Result {ℓ} (A : Type ℓ) : Type ℓ where
  ok : A → Result A
  err : StorageError → Result A

-- `Result::ok`
abbrev pub to_option {ℓ} : {A : Type ℓ} → Result A → Option A
to_option (ok a) = some a
to_option (err e) = none
