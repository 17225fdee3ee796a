-- ===== src/Server/Service/Handlers.antt =====
-- meeting_service.cpp: what is done with the packets of a connection.
use cloud_meeting_client.Server.Buffer.{readable_size}
use cloud_meeting_client.Server.Connection.{Connection, is_open, send, on_received, on_written}
use cloud_meeting_client.Server.Protocol.{Packet, empty_packet}
use cloud_meeting_client.Server.Protocol.Codec.{need_more, ok, invalid, try_decode, encode}
use cloud_meeting_client.Server.Protocol.MessageType.{
  create_meeting, join_meeting, create_meeting_response, join_meeting_response,
}
use cloud_meeting_client.Server.Room.{handle_packet, notify_user_joined}
use cloud_meeting_client.Server.RoomManager.{JoinResult, create_room, get_room, join_room}
use cloud_meeting_client.Server.Service.{World, with_connection, with_room, close}
use cloud_meeting_client.Prelude.{
  be32, ℕ, if◌then◌else◌, lookup, ◌^◌, emplace, ltb, ◌==◌, Option, suc, ◌-◌, length, Bytes, some,
  of_be32, zero, true, not, none,
}

-- `conn->send(...)` on the connection as it stands in the world.
unfoldable pub reply : ℕ → Packet → World → World
reply id packet w = elim (lookup id w.connections) [
  | none ↦ w
  | some c ↦ with_connection id (send c (encode packet)) w
]

abbrev pub response : ℕ → ℕ → Packet
response type room_no = record { type = type; ip = 0; payload = be32 room_no }

-- `set_close_callback` on a room of the manager.
unfoldable pub set_close_callback : ℕ → World → World
set_close_callback r w = elim (get_room w.manager r) [
  | none ↦ w
  | some room ↦ with_room r (record room { has_close_callback = true }) w
]

unfoldable pub handle_create_meeting : Connection → World → World
handle_create_meeting conn w =
    let (room_id, m) = create_room w.manager conn in
    elim room_id [
      | none ↦ reply conn.id (response create_meeting_response 0) (record w { manager = m })
      | some r ↦ reply conn.id (response create_meeting_response r) (
          set_close_callback r
            (record w { manager = m; connection_room = emplace conn.id r w.connection_room }))
    ]

-- The room is told of a connection that joined it.
unfoldable pub notify_partner_join : ℕ → ℕ → World → World
notify_partner_join r id w = elim (get_room w.manager r) [
  | none ↦ w
  | some room ↦ elim (lookup id w.connections) [
    | none ↦ w
    | some c ↦ record w { connections = notify_user_joined room c w.connections }
  ]
]

-- `static_cast<uint32_t>(-1)`
abbrev pub room_is_full : ℕ
room_is_full = 2 ^ 32 - 1

unfoldable pub answer_join : JoinResult → ℕ → ℕ → World → World
answer_join JoinResult.ok r id w = notify_partner_join r id (
    reply id (response join_meeting_response r)
      (record w { connection_room = emplace id r w.connection_room }))
answer_join JoinResult.full r id w = reply id (response join_meeting_response room_is_full) w
answer_join JoinResult.not_found r id w = reply id (response join_meeting_response 0) w
answer_join JoinResult.closed r id w = reply id (response join_meeting_response 0) w

unfoldable pub handle_join_meeting : Connection → Packet → World → World
handle_join_meeting conn packet w =
    if ltb (length packet.payload) 4
    then close conn.id w
    else (let room_id = of_be32 packet.payload in
        let (result, m) = join_room w.manager room_id conn in
        answer_join result room_id conn.id (record w { manager = m }))

unfoldable pub handle_lobby_packet : Connection → Packet → World → World
handle_lobby_packet conn packet w =
    if packet.type == create_meeting
    then handle_create_meeting conn w
    else if packet.type == join_meeting
    then handle_join_meeting conn packet w
    else close conn.id w

-- The body of the loop of `on_connection_read`, for a packet that was decoded.
unfoldable pub route : Connection → Packet → World → World
route conn packet w = elim (lookup conn.id w.connection_room) [
  | none ↦ handle_lobby_packet conn packet w
  | some r ↦ elim (get_room w.manager r) [
    | none ↦ w
    | some room ↦ record w { connections = handle_packet room conn.id packet w.connections }
  ]
]

-- The loop, for a number of rounds at most; `on_connection_read` allows one more than there are
-- unread bytes, of which each packet takes 12 at least.
unfoldable pub read_loop : ℕ → ℕ → Packet → World → World
read_loop zero id packet w = w
read_loop (suc rounds) id packet w = elim (lookup id w.connections) [
  | none ↦ w
  | some c ↦
      let (status, p, b) = try_decode c.read_buffer packet in
      let conn = record c { read_buffer = b } in
      let decoded = with_connection id conn w in
      let rest = read_loop rounds id p (route conn p decoded) in
      if not (is_open c)
      then w
      else elim status [ need_more ↦ decoded | invalid ↦ close id decoded | ok ↦ rest ]
]

unfoldable pub on_connection_read : ℕ → World → World
on_connection_read id w = elim (lookup id w.connections) [
  | none ↦ w
  | some c ↦ read_loop (suc (readable_size c.read_buffer)) id empty_packet w
]

-- The completion of a read: the bytes, or an error.
unfoldable pub on_read : ℕ → Option Bytes → World → World
on_read id none w = close id w
on_read id (some d) w = elim (lookup id w.connections) [
  | none ↦ w
  | some c ↦ on_connection_read id (with_connection id (on_received c d) w)
]

-- The completion of a write: how much of it, or an error.
unfoldable pub on_write : ℕ → Option ℕ → World → World
on_write id none w = close id w
on_write id (some n) w = elim (lookup id w.connections) [
  | none ↦ w
  | some c ↦ with_connection id (on_written c n) w
]
