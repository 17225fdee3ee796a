-- ===== src/Client.antt =====
-- The desktop client, client/include and client/src.
pub mod Message
pub mod Kinds
pub mod Queues
pub mod Meeting
pub mod Hub
pub mod Link
pub mod System
pub mod Audio
pub mod MainWindow
pub mod Camera
pub mod Frameless
pub mod TextEdit
pub mod Login
pub mod Address
pub mod Codec
