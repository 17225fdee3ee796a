-- ===== src/Server/Protocol.antt =====
-- server/include/protocol/packet.h.
pub mod MessageType
pub mod Codec
pub mod Frames
pub mod RoundTrip
pub mod Sound
use cloud_meeting_client.Prelude.{ℕ, Bytes, []}

pub record Packet : Type 0 where
  pub type : MessageType.MessageType
  pub ip : ℕ
  pub payload : Bytes

-- `Packet packet;`
abbrev pub empty_packet : Packet
empty_packet = record { type = 0; ip = 0; payload = [] }
