-- ===== src/Host/Nonce.antt =====
-- `NonceManager` of apps/gibberish-daemon/src/nonce.rs. The state file is an optional record: `none`
-- when it is missing or does not parse. An operation that writes it takes as an argument whether the
-- file system did: a failed write leaves the old file, since the new one is renamed into place.
pub mod Ascending
pub mod Reserved
use gibberish.Prelude.{
  ℕ, ◌+◌, ◌-◌, ◌%◌, ◌^◌, Bool, Option, none, some, List, [], ◌∷◌, leb, if◌then◌else◌,
  saturating_add,
}

abbrev pub nonce_block_size : ℕ
nonce_block_size = 1000

pub record NonceDiskState : Type 0 where
  pub last_persisted_epoch : ℕ
  pub next_allocated_block : ℕ

pub record NonceManager : Type 0 where
  pub current_epoch : ℕ
  pub current_counter : ℕ
  pub block_limit : ℕ

-- The state file, and the manager of the daemon that runs, if one does.
pub record World : Type 0 where
  pub disk : Option NonceDiskState
  pub running : Option NonceManager

-- `unwrap_or` of the parse
unfoldable pub disk_state : Option NonceDiskState → NonceDiskState
disk_state none = record { last_persisted_epoch = 0; next_allocated_block = 0 }
disk_state (some d) = d

-- The file afterwards.
unfoldable pub persist_block_reservation :
    Bool → NonceManager → Option NonceDiskState → Option NonceDiskState
persist_block_reservation written m disk =
    if written
    then some
        (record { last_persisted_epoch = m.current_epoch; next_allocated_block = m.block_limit })
    else disk

-- `new`: the manager that it starts with, before the reservation is written.
unfoldable pub first_manager : ℕ → NonceDiskState → NonceManager
first_manager clock d =
    let now_secs = clock % 2 ^ 32 in
    record {
      current_epoch =
          if leb now_secs d.last_persisted_epoch
          then saturating_add (2 ^ 32 - 1) d.last_persisted_epoch 1
          else now_secs;
      current_counter = d.next_allocated_block;
      block_limit = (d.next_allocated_block + nonce_block_size) % 2 ^ 64;
    }

-- A daemon starts; one that ran before is gone. An I/O error of any of the calls of `new` ends it with
-- the file as it was.
unfoldable pub new : Bool → ℕ → World → World
new written clock w =
    let m = first_manager clock (disk_state w.disk) in
    record {
      disk = persist_block_reservation written m w.disk;
      running = if written then some m else none;
    }

-- `allocate_msg`, when the block is used up: the new block's end.
unfoldable pub extend : NonceManager → NonceManager
extend m = record m { block_limit = (m.block_limit + nonce_block_size) % 2 ^ 64 }

unfoldable pub issue : NonceManager → NonceManager
issue m = record m { current_counter = (m.current_counter + 1) % 2 ^ 64 }

-- The world afterwards, and the epoch and counter that are issued; `none` is an I/O error.
unfoldable pub allocate_msg : Bool → NonceManager → World → World × Option (ℕ × ℕ)
allocate_msg written m w =
    if leb m.block_limit m.current_counter
    then (if written
        then (
          record {
            disk = persist_block_reservation written (extend m) w.disk;
            running = some (issue (extend m));
          },
          some (m.current_epoch, m.current_counter),
        )
        else (record { disk = w.disk; running = some (extend m) }, none))
    else (
      record { disk = w.disk; running = some (issue m) },
      some (m.current_epoch, m.current_counter),
    )

-- What happens to the daemon, each with the outcome of the write it may need.
pub data Event : Type 0 where
  start : Bool → ℕ → Event
  allocate : Bool → Event

unfoldable pub step : World → Event → World × Option (ℕ × ℕ)
step w (start written clock) = (new written clock w, none)
step w (allocate written) = elim w.running [ none ↦ (w, none) | some m ↦ allocate_msg written m w ]

abbrev pub add_issued : Option (ℕ × ℕ) → List (ℕ × ℕ) → List (ℕ × ℕ)
add_issued none rest = rest
add_issued (some p) rest = p ∷ rest

-- The pairs that are issued during a run, in order.
unfoldable pub issued : World → List Event → List (ℕ × ℕ)
issued w [] = []
issued w (e ∷ es) = let s = step w e in add_issued s.1 (issued s.0 es)
