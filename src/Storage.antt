-- ===== src/Storage.antt =====
-- crates/gibberish-storage: the SRAM packet ring, the records and checkpoints on the card, and the
-- manager that moves packets from the one to the other.
pub mod Ring
pub mod Error
pub mod Record
pub mod Manager
