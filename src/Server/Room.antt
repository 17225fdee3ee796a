-- ===== src/Server/Room.antt =====
-- server/include/config/server_config.h, server/include/meeting/participant.h and room.h, and
-- server/src/meeting/room.cpp but for `remove_participant` and `close_room`, which close connections
-- and call the service: those are in Service.antt. A pointer to a connection is its id, and
-- the connections stand in one map. `_participants` is visited in the order of insertion.
pub mod Broadcast
use cloud_meeting_client.Server.Connection.{Connection, is_open, send}
use cloud_meeting_client.Server.Protocol.{Packet}
use cloud_meeting_client.Server.Protocol.Codec.{encode}
use cloud_meeting_client.Server.Protocol.MessageType.{
  img_send, img_recv, audio_send, audio_recv, text_send, text_recv, close_camera, partner_join,
  partner_join2, partner_exit,
}
use cloud_meeting_client.Prelude.{
  ℕ, Bool, Map, false, Bytes, if◌then◌else◌, ◌||◌, [], lookup, ◌==◌, not, true, leb, length,
  emplace, ◌∷◌, put, some, ◌++◌, none, be32,
}

pub record ServerConfig : Type 0 where
  pub max_rooms : ℕ
  pub max_participants_per_room : ℕ
  pub listen_port : ℕ

-- The defaults, which main.cpp sets once more.
abbrev pub default_config : ServerConfig
default_config = record { max_rooms = 64; max_participants_per_room = 1024; listen_port = 8888 }

-- `connection` is the key under which a participant stands.
pub record Participant : Type 0 where
  pub ip_network : ℕ
  pub is_owner : Bool

pub record Room : Type 0 where
  pub room_id : ℕ
  pub config : ServerConfig
  pub closed : Bool
  pub participants : Map Participant
  pub has_close_callback : Bool

abbrev pub Connections : Type 0
Connections = Map Connection

unfoldable pub add_participant : Room → Connection → Bool → Bool × Room
add_participant room conn is_owner =
    if room.closed || not (is_open conn)
    then (false, room)
    else if leb room.config.max_participants_per_room (length room.participants)
    then (false, room)
    else (
      true,
      record room {
        participants =
            emplace conn.id (record { ip_network = conn.peer_ip; is_owner = is_owner })
              room.participants;
      },
    )

-- The constructor: the owner is added, whatever comes of it.
unfoldable pub new_room : ℕ → Connection → ServerConfig → Room
new_room room_id owner config =
    (add_participant
      (record {
        room_id = room_id;
        config = config;
        closed = false;
        participants = [];
        has_close_callback = false;
      })
      owner true).1

-- What an open connection does with a block that is sent to it.
unfoldable pub receive : Bytes → Connection → Connection
receive d c = if is_open c then send c d else c

unfoldable pub deliver : ℕ → Bytes → Connections → Connections
deliver id d cs = elim (lookup id cs) [ none ↦ cs | some c ↦ put id (receive d c) cs ]

unfoldable pub send_to : ℕ → Packet → Connections → Connections
send_to target packet cs = deliver target (encode packet) cs

unfoldable pub broadcast_to : Map Participant → ℕ → Bytes → Connections → Connections
broadcast_to [] exclude d cs = cs
broadcast_to ((id, p) ∷ ps) exclude d cs =
    broadcast_to ps exclude d (if id == exclude then cs else deliver id d cs)

unfoldable pub broadcast : Room → Packet → ℕ → Connections → Connections
broadcast room packet exclude cs = broadcast_to room.participants exclude (encode packet) cs

-- The type under which a media message is passed on.
unfoldable pub outbound_type : ℕ → ℕ
outbound_type t =
    if t == img_send then img_recv else if t == audio_send then audio_recv else text_recv

-- The switch of `handle_packet`.
unfoldable pub forward : Room → ℕ → ℕ → Packet → Connections → Connections
forward room from sender_ip packet cs =
    if packet.type == img_send || packet.type == audio_send || packet.type == text_send
    then broadcast room (record packet { type = outbound_type packet.type; ip = sender_ip }) from cs
    else if packet.type == close_camera
    then broadcast room (record { type = close_camera; ip = sender_ip; payload = [] }) from cs
    else cs

unfoldable pub handle_packet : Room → ℕ → Packet → Connections → Connections
handle_packet room from packet cs =
    if room.closed then cs else elim (lookup from room.participants) [
      | none ↦ cs
      | some p ↦ forward room from p.ip_network packet cs
    ]

-- The addresses of all participants but one, in network order.
unfoldable pub partner_payload : Map Participant → ℕ → Bytes
partner_payload [] newcomer = []
partner_payload ((id, p) ∷ ps) newcomer =
    if id == newcomer
    then partner_payload ps newcomer
    else be32 p.ip_network ++ partner_payload ps newcomer

unfoldable pub notify_user_joined : Room → Connection → Connections → Connections
notify_user_joined room newcomer cs =
    if room.closed
    then cs
    else send_to newcomer.id
        (record {
          type = partner_join2;
          ip = 0;
          payload = partner_payload room.participants newcomer.id;
        })
        (broadcast room (record { type = partner_join; ip = newcomer.peer_ip; payload = [] })
          newcomer.id cs)
