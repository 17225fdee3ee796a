-- ===== src/Server.antt =====
-- The message server, server/include and server/src.
pub mod Buffer
pub mod Protocol
pub mod Connection
pub mod Room
pub mod RoomManager
pub mod Service
