-- ===== src/Firmware.antt =====
-- The main loop of apps/gibberish-firmware/src/main.rs, built without the feature `prod`. What the
-- hardware answers in a turn of the loop is an argument: the button, the frames that the radio holds,
-- whether it takes a frame, random numbers, the free heap and the bytes on the USB line. The log lines
-- are left out, but for the packets that are printed for the host.
pub mod Node
pub mod Receive
pub mod Loop
pub mod Duplicates
pub mod Seen
mod Shared
pub mod Relaying
pub mod Invariant
pub mod Turns
pub mod Start
