-- ===== src/Guest.antt =====
-- The guest: source/DasHLE/Guest.
pub mod Access
pub mod Action
pub mod Arm
pub mod ElfVm
