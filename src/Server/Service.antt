-- ===== src/Server/Service.antt =====
-- server/include/service/meeting_service.h and server/src/service/meeting_service.cpp, with the parts
-- of connection.cpp and room.cpp that call it: closing a connection takes it out of its room, and
-- losing its owner closes a room, which closes the other connections. These functions call each
-- other through `close`, which stands here as a function that they are given; `close_at` bounds the
-- depth of the calls, and Service/Depth.antt shows that `close` never meets the bound.
pub mod Handlers
pub mod Depth
pub mod Opens
pub mod Shut
pub mod Dissolve
pub mod Creation
use cloud_meeting_client.Server.Connection.{Connection, new_connection, is_open, mark_closed}
use cloud_meeting_client.Server.Protocol.MessageType.{partner_exit}
use cloud_meeting_client.Server.Room.{Connections, Room, ServerConfig, Participant, broadcast}
use cloud_meeting_client.Server.RoomManager.{RoomManager, new_manager, get_room, remove_room}
use cloud_meeting_client.Prelude.{
  put, Map, [], ℕ, emplace, Bool, if◌then◌else◌, erase, lookup, suc, true, length, ◌+◌, ◌%◌, ◌^◌,
  none, ◌∷◌, some, zero, false, ◌==◌,
}

-- All that the service and its collaborators keep. `connection_room` holds ids of rooms; an entry
-- and the manager share the room object. `next_connection_id` is the counter of connection.cpp.
pub record World : Type 0 where
  pub connections : Connections
  pub manager : RoomManager
  pub connection_room : Map ℕ
  pub next_connection_id : ℕ

-- The server before its first client.
unfoldable pub new_world : ServerConfig → World
new_world config = record {
  connections = [];
  manager = new_manager config;
  connection_room = [];
  next_connection_id = 1;
}

-- `do_accept` on a client from an address, and `on_new_connection`, which sets the handlers.
unfoldable pub accept : ℕ → World → World
accept ip w =
    let id = w.next_connection_id in
    record w {
      connections =
          emplace id (record (new_connection id ip) { has_close_handler = true }) w.connections;
      next_connection_id = (id + 1) % 2 ^ 64;
    }

abbrev pub with_connection : ℕ → Connection → World → World
with_connection id c w = record w { connections = put id c w.connections }

abbrev pub with_room : ℕ → Room → World → World
with_room r room w = record w { manager = record w.manager { rooms = put r room w.manager.rooms } }

abbrev pub open_at : ℕ → Connections → Bool
open_at id cs = elim (lookup id cs) [ none ↦ false | some c ↦ is_open c ]

-- The loop of `cleanup_room` over `_connection_room`.
unfoldable pub forget_room : ℕ → Map ℕ → Map ℕ
forget_room r [] = []
forget_room r ((id, s) ∷ m) = if s == r then forget_room r m else (id, s) ∷ forget_room r m

unfoldable pub cleanup_room : ℕ → World → World
cleanup_room r w = record w {
  connection_room = forget_room r w.connection_room;
  manager = remove_room w.manager r;
}

-- `_close_handler = nullptr`
unfoldable pub forget_handler : ℕ → World → World
forget_handler id w = elim (lookup id w.connections) [
  | none ↦ w
  | some c ↦ with_connection id (record c { has_close_handler = false }) w
]

module _ (close : ℕ → World → World) where
  -- The loop of `close_room` over the participants that were there.
  unfoldable pub close_all : Map Participant → World → World
  close_all [] w = w
  close_all ((id, p) ∷ ps) w = close_all ps (if open_at id w.connections then close id w else w)

  unfoldable pub close_room : ℕ → Room → World → World
  close_room r room w =
      if room.closed
      then w
      else (let emptied = with_room r (record room { closed = true; participants = [] }) w in
          let done = close_all room.participants emptied in
          if room.has_close_callback then cleanup_room r done else done)

  -- `remove_participant` once the participant is found.
  unfoldable pub drop_participant : ℕ → Room → ℕ → Participant → World → World
  drop_participant r room id p w =
      let left = record room { participants = erase id room.participants } in
      let removed = with_room r left w in
      if p.is_owner then close_room r left removed else record removed {
        connections =
            broadcast left (record { type = partner_exit; ip = p.ip_network; payload = [] }) 0
              removed.connections;
      }

  unfoldable pub remove_participant : ℕ → ℕ → World → World
  remove_participant r id w = elim (get_room w.manager r) [
    | none ↦ w
    | some room ↦ if room.closed then w else elim (lookup id room.participants) [
      | none ↦ w
      | some p ↦ drop_participant r room id p w
    ]
  ]

  unfoldable pub on_connection_close : ℕ → World → World
  on_connection_close id w = elim (lookup id w.connection_room) [
    | none ↦ w
    | some r ↦ remove_participant r id (record w { connection_room = erase id w.connection_room })
  ]

  -- The handler is called, and then forgotten.
  unfoldable pub notify_close : ℕ → World → World
  notify_close id w = elim (lookup id w.connections) [
    | none ↦ w
    | some c ↦ if c.has_close_handler then forget_handler id (on_connection_close id w) else w
  ]

  -- `Connection::close`.
  unfoldable pub close_step : ℕ → World → World
  close_step id w = elim (lookup id w.connections) [
    | none ↦ w
    | some c ↦ if c.closed then w else notify_close id (with_connection id (mark_closed c) w)
  ]

-- At depth 0 no call is made.
unfoldable pub close_at : ℕ → ℕ → World → World
close_at zero id w = w
close_at (suc depth) id w = close_step (close_at depth) id w

-- The depth is above the number of connections; each call inside marks one of them as closed.
unfoldable pub close : ℕ → World → World
close id w = close_at (suc (length w.connections)) id w
