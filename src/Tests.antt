-- ===== src/Tests.antt =====
-- The theorems at concrete data.
pub mod Server
pub mod Client
pub mod Meeting
pub mod Network
pub mod Windows
pub mod Sound
pub mod TextEdit
pub mod Address
pub mod Auth
