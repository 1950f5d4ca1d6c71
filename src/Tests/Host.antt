-- ===== src/Tests/Host.antt =====
-- A daemon that starts, allocates, and starts again with its clock set back.
use gibberish.Prelude.{ℕ, ◌≡◌, refl, true, false, none, some, List, [], ◌∷◌, length, All, arith}
use gibberish.Host.Clipboard.{Text, new_clipboard, write_clipboard, reads}
use gibberish.Host.Clipboard.Echo.{echo_suppressed}
use gibberish.Host.Nonce.{World, Event, start, allocate, disk_state, step, issued, allocate_msg}
use gibberish.Host.Nonce.Ascending.{Fits, ClockFits, AtMost, Ascending, floor, issued-Ascending}
use gibberish.Host.Nonce.Reserved.{Reserved, Written}

abbrev fresh : World
fresh = record { disk = none; running = none }

abbrev events : List Event
events =
    start true 2_000
    ∷ allocate true
    ∷ allocate false
    ∷ start false 3_000
    ∷ start true 1_000
    ∷ allocate true
    ∷ []

events-Fits : Fits (length events) 5_000 fresh
unfolding Fits disk_state
events-Fits = (omega arith, omega arith, omega arith, tt)

events-ClockFits : All (ClockFits 5_000) events
unfolding ClockFits
events-ClockFits = (omega arith, (tt, (tt, (omega arith, (omega arith, (tt, tt))))))

fresh-floor : AtMost (0, 0) (floor fresh)
unfolding AtMost floor disk_state
fresh-floor = ground arith

issued-Ascending_example : Ascending (0, 0) (issued fresh events)
issued-Ascending_example =
    issued-Ascending events 5_000 fresh (0, 0) events-Fits events-ClockFits fresh-floor

-- A manager whose block is used up.
abbrev used_up : World
used_up = record {
  disk = some (record { last_persisted_epoch = 2_000; next_allocated_block = 1_000 });
  running = some (record { current_epoch = 2_000; current_counter = 1_000; block_limit = 1_000 });
}

used_up-Fits : Fits 1 5_000 used_up
unfolding Fits disk_state
used_up-Fits = (omega arith, omega arith, omega arith, (refl, omega arith, omega arith))

used_up-Reserved : Reserved used_up
unfolding Reserved disk_state
used_up-Reserved = (refl, omega arith)

written : Written (allocate true)
unfolding Written
written = refl

used_up_issues : (step used_up (allocate true)).1 ≡ some (2_000, 1_000)
unfolding step allocate_msg
used_up_issues = refl

abbrev length_hash : Text → ℕ
length_hash text = length text

echo_suppressed_example :
    reads length_hash
      ((3, some (1 ∷ 2 ∷ [])) ∷ (900, some (1 ∷ 2 ∷ [])) ∷ [])
      (write_clipboard length_hash 0 (1 ∷ 2 ∷ []) true (new_clipboard 0)).0
    ≡ none ∷ none ∷ []
echo_suppressed_example =
    echo_suppressed length_hash 0 (1 ∷ 2 ∷ []) true (new_clipboard 0) (3 ∷ 900 ∷ [])
