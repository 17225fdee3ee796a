-- ===== src/Tests/Server.antt =====
-- The theorems on the server (server/src) at concrete data.
use cloud_meeting_client.Server.Service.Creation.{handle_create_meeting-Owns, CanCreate, meeting_of}
use cloud_meeting_client.Server.Protocol.MessageType.{create_meeting_response}
use cloud_meeting_client.Prelude.{
  [], Bytes, refl, length, take, ◌≡◌, ◌≤◌, ◌∷◌, ◌++◌, arith, lookup, IsMap, false, true, List, not,
  ◌&&◌,
}
use cloud_meeting_client.Server.Buffer.Contents.{IsValid, contents, contents-write}
use cloud_meeting_client.Server.Protocol.Codec.{
  ok, need_more, encode, try_decode, header_includes_ip,
}
use cloud_meeting_client.Server.Buffer.{
  Buffer, write, move_read_pos, readable_size, fill, expand_if_need, writable_size, new_buffer,
}
use cloud_meeting_client.Server.Protocol.{Packet, empty_packet}
use cloud_meeting_client.Server.Protocol.RoundTrip.{
  IsPacket, on_wire, try_decode_prefix, frame_of, try_decode-encode,
}
use cloud_meeting_client.Server.Protocol.Sound.{try_decode_sound}
use cloud_meeting_client.Server.RoomManager.Capacity
use cloud_meeting_client.Server.Connection.Delivery.{
  Traced, IsTrue, Reach-IsTrue, front, next, here, sends, writes,
}
use cloud_meeting_client.Server.Connection.{send, new_connection, on_written, do_write, Connection}
use cloud_meeting_client.Server.Room.{
  Room, Connections, ServerConfig, default_config, handle_packet,
}
use cloud_meeting_client.Server.RoomManager.{RoomManager, new_manager, join_room}
use cloud_meeting_client.Server.RoomManager.Capacity.{
  serve_all, Joined, Request, serve_all-IsValid, creates, joins, join_room_lem,
}
use cloud_meeting_client.Server.Service.{World, accept, close_at, new_world, close, open_at}
use cloud_meeting_client.Server.Room.Broadcast.{after_relay, relayed, handle_packet_lem}
use cloud_meeting_client.Server.Service.Opens.{opens, count_open}
use cloud_meeting_client.Server.Service.Depth.{close_lem}
use cloud_meeting_client.Server.Service.Dissolve.{Owns, Dissolved, close-Dissolved}
use cloud_meeting_client.Server.Service.Handlers.{response, handle_create_meeting}

-- A buffer of eight bytes with five written and two of them read.
abbrev part_read : Buffer
part_read = record { buffer = 1 ∷ 2 ∷ 3 ∷ 4 ∷ 5 ∷ 0 ∷ 0 ∷ 0 ∷ []; read_pos = 2; write_pos = 5 }

part_read-IsValid : IsValid part_read
part_read-IsValid = record { read_le = omega arith; write_le = omega arith }

contents-write_example :
    (contents (write part_read (6 ∷ 7 ∷ 8 ∷ 9 ∷ [])) ≡ 3 ∷ 4 ∷ 5 ∷ 6 ∷ 7 ∷ 8 ∷ 9 ∷ [])
    × IsValid (write part_read (6 ∷ 7 ∷ 8 ∷ 9 ∷ []))
contents-write_example = contents-write part_read (6 ∷ 7 ∷ 8 ∷ 9 ∷ []) part_read-IsValid

two_left : 2 ≤ readable_size part_read
unfolding readable_size
two_left = omega arith

-- The frame of a text, and a buffer with it and the first byte of the next one.
abbrev text_packet : Packet
text_packet = record { type = 4; ip = 167772161; payload = 104 ∷ 105 ∷ [] }

text_packet-IsPacket : IsPacket text_packet
text_packet-IsPacket = omega arith

abbrev text_frame : Bytes
text_frame = 36 ∷ 0 ∷ 4 ∷ 10 ∷ 0 ∷ 0 ∷ 1 ∷ 0 ∷ 0 ∷ 0 ∷ 2 ∷ 104 ∷ 105 ∷ 35 ∷ []

encode_text : encode text_packet ≡ text_frame
unfolding encode header_includes_ip
encode_text = refl

abbrev holding : Bytes → Buffer
holding d = record { buffer = d; read_pos = 0; write_pos = length d }

holding-IsValid : (d : Bytes) → IsValid (holding d)
holding-IsValid d = record { read_le = omega arith; write_le = omega arith }

abbrev arrived : Buffer
arrived = holding (text_frame ++ 36 ∷ [])

arrived_lem : contents arrived ≡ encode text_packet ++ 36 ∷ []
unfolding encode header_includes_ip
arrived_lem = refl

try_decode-encode_example :
    let r = try_decode arrived empty_packet in
    (r.0 ≡ ok) × (r.1 ≡ on_wire text_packet) × (contents r.2 ≡ 36 ∷ []) × IsValid r.2
try_decode-encode_example =
    try_decode-encode text_packet empty_packet (36 ∷ []) arrived text_packet-IsPacket
      (holding-IsValid (text_frame ++ 36 ∷ [])) arrived_lem

abbrev begun : Buffer
begun = holding (take 13 text_frame)

begun_lem : contents begun ++ 35 ∷ [] ≡ encode text_packet
unfolding encode header_includes_ip
begun_lem = refl

try_decode_prefix_example :
    ((try_decode begun empty_packet).0 ≡ need_more) × ((try_decode begun empty_packet).2 ≡ begun)
try_decode_prefix_example =
    try_decode_prefix text_packet empty_packet 35 [] begun text_packet-IsPacket
      (holding-IsValid (take 13 text_frame)) begun_lem

abbrev left_over : Buffer
left_over = record { buffer = text_frame ++ 36 ∷ []; read_pos = 14; write_pos = 15 }

accepted : try_decode arrived empty_packet ≡ (ok, text_packet, left_over)
unfolding try_decode readable_size move_read_pos
accepted = refl

try_decode_sound_example : contents arrived ≡ frame_of text_packet ++ contents left_over
try_decode_sound_example =
    try_decode_sound arrived left_over text_packet empty_packet
      (holding-IsValid (text_frame ++ 36 ∷ [])) (omega arith) (omega arith) accepted

-- A new connection, after a block of three bytes was sent, and after the socket took two of them.
abbrev start : Traced
start = record { connection = new_connection 1 9; sent = []; delivered = [] }

abbrev after_send : Traced
after_send = record start {
  connection = send (new_connection 1 9) (1 ∷ 2 ∷ 3 ∷ []);
  sent = 1 ∷ 2 ∷ 3 ∷ [];
}

abbrev after_write : Traced
after_write = record after_send {
  connection = on_written after_send.connection 2;
  delivered = take 2 (front after_send.connection.write_queue);
}

is_writing : after_send.connection.write_in_progress ≡ true
unfolding send do_write new_connection
is_writing = refl

three_to_write : 2 ≤ length (front after_send.connection.write_queue)
unfolding send do_write new_connection write fill expand_if_need writable_size new_buffer
three_to_write = omega arith

Reach-IsTrue_example : IsTrue after_write
Reach-IsTrue_example =
    Reach-IsTrue 1 9
      (next (next here (sends (1 ∷ 2 ∷ 3 ∷ []))) (writes 2 is_writing three_to_write))

-- A room with its owner 1 and a member 2, who sends a text.
abbrev room : Room
room = record {
  room_id = 1;
  config = default_config;
  closed = false;
  participants =
      (1, record { ip_network = 9; is_owner = true })
      ∷ (2, record { ip_network = 8; is_owner = false })
      ∷ [];
  has_close_callback = true;
}

room-IsMap : IsMap room.participants
room-IsMap = ground arith

abbrev two_connections : Connections
two_connections = (1, new_connection 1 9) ∷ (2, new_connection 2 8) ∷ []

handle_packet_lem_example :
    lookup 1 (handle_packet room 2 text_packet two_connections)
    ≡ after_relay (relayed 8 text_packet) 2 room 1 two_connections
handle_packet_lem_example = handle_packet_lem room 2 1 text_packet two_connections room-IsMap

-- At most one room of at most two participants.
abbrev small_config : ServerConfig
small_config = record { max_rooms = 1; max_participants_per_room = 2; listen_port = 8888 }

abbrev small_manager : RoomManager
small_manager = new_manager small_config

small_manager-IsValid : Capacity.IsValid small_manager
unfolding new_manager
small_manager-IsValid = record { few_rooms = omega arith; all_fit = tt; one_room_each = tt }

abbrev requests : List Request
requests =
    creates (new_connection 1 9)
    ∷ creates (new_connection 2 9)
    ∷ joins 1 (new_connection 3 9)
    ∷ joins 1 (new_connection 4 9)
    ∷ []

serve_all-IsValid_example : Capacity.IsValid (serve_all requests small_manager)
serve_all-IsValid_example = serve_all-IsValid requests small_manager small_manager-IsValid

join_room_lem_example :
    Joined
      (serve_all requests small_manager)
      1
      (new_connection 5 9)
      (join_room (serve_all requests small_manager) 1 (new_connection 5 9))
join_room_lem_example =
    join_room_lem (serve_all requests small_manager) 1 (new_connection 5 9)
      (serve_all-IsValid requests small_manager small_manager-IsValid)

-- Two clients that were accepted.
abbrev two_clients : World
two_clients = accept 8 (accept 9 (new_world default_config))

two_open : opens two_clients ≤ 2
unfolding accept new_world new_connection count_open
two_open = omega arith

close_lem_example :
    (close_at 2 1 two_clients ≡ close 1 two_clients)
    × (opens (close 1 two_clients) ≤ opens two_clients)
    × (open_at 1 (close 1 two_clients).connections ≡ false)
    × ((open_at 2 (close 1 two_clients).connections && not (open_at 2 two_clients.connections))
        ≡ false)
close_lem_example = close_lem 2 1 2 two_clients two_open

-- A meeting of two: connection 1 owns the room, and connection 2 is in it.
abbrev owner : Connection
owner = record (new_connection 1 9) { has_close_handler = true }

abbrev in_meeting : World
in_meeting = record {
  connections = (1, owner) ∷ (2, record (new_connection 2 8) { has_close_handler = true }) ∷ [];
  manager = record { config = default_config; rooms = (1, room) ∷ []; next_room_id = 2 };
  connection_room = (1, 1) ∷ (2, 1) ∷ [];
  next_connection_id = 3;
}

owner-Owns : Owns 1 1 owner room (record { ip_network = 9; is_owner = true }) in_meeting
unfolding new_connection
owner-Owns = record {
  known = refl;
  not_closed = refl;
  watched = refl;
  in_room = refl;
  room_there = refl;
  room_open = refl;
  room_watched = refl;
  member = refl;
  owner = refl;
}

close-Dissolved_example : Dissolved 1 room.participants (close 1 in_meeting)
close-Dissolved_example =
    close-Dissolved 1 1 owner room (record { ip_network = 9; is_owner = true }) in_meeting
      owner-Owns

-- The server with one connection and no room.
abbrev alone : World
alone = record {
  connections = (1, owner) ∷ [];
  manager = record { config = default_config; rooms = []; next_room_id = 1 };
  connection_room = [];
  next_connection_id = 2;
}

owner-CanCreate : CanCreate owner alone
unfolding new_connection
owner-CanCreate = record {
  known = refl;
  live = refl;
  in_no_room = refl;
  few_rooms = omega arith;
  place = omega arith;
  new_id = refl;
}

owner_watched : owner.has_close_handler ≡ true
owner_watched = refl

handle_create_meeting-Owns_example :
    Owns owner.id 1
      (send owner (encode (response create_meeting_response 1)))
      (meeting_of 1 owner default_config true)
      (record { ip_network = owner.peer_ip; is_owner = true })
      (handle_create_meeting owner alone)
handle_create_meeting-Owns_example =
    handle_create_meeting-Owns owner alone owner-CanCreate owner_watched
