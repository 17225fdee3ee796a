-- ===== src/Server/RoomManager.antt =====
-- server/include/meeting/room_manager.h and server/src/meeting/room_manager.cpp. A pointer to a
-- room is its id.
pub mod Capacity
pub mod Rooms
use cloud_meeting_client.Server.Connection.{Connection, is_open}
use cloud_meeting_client.Server.Room.{Room, ServerConfig, new_room, add_participant}
use cloud_meeting_client.Prelude.{
  Map, ℕ, [], Option, if◌then◌else◌, lookup, false, erase, not, put, none, leb, some, length,
  emplace, ◌+◌, ◌%◌, ◌^◌,
}

pub data JoinResult : Type 0 where
  ok not_found full closed : JoinResult

pub record RoomManager : Type 0 where
  pub config : ServerConfig
  pub rooms : Map Room
  pub next_room_id : ℕ

unfoldable pub new_manager : ServerConfig → RoomManager
new_manager config = record { config = config; rooms = []; next_room_id = 1 }

-- `_next_room_id++` wraps at 2 ^ 32. `emplace` keeps a room that has the id already.
unfoldable pub create_room : RoomManager → Connection → Option ℕ × RoomManager
create_room m owner =
    if not (is_open owner)
    then (none, m)
    else if leb m.config.max_rooms (length m.rooms)
    then (none, m)
    else (
      some m.next_room_id,
      record m {
        rooms = emplace m.next_room_id (new_room m.next_room_id owner m.config) m.rooms;
        next_room_id = (m.next_room_id + 1) % 2 ^ 32;
      },
    )

abbrev pub get_room : RoomManager → ℕ → Option Room
get_room m room_id = lookup room_id m.rooms

-- The last two steps of `join_room`, in a room that is there, open, and not full by the manager's
-- configuration.
unfoldable pub enter : RoomManager → ℕ → Room → Connection → JoinResult × RoomManager
enter m room_id room conn =
    let (added, r) = add_participant room conn false in
    if added then (ok, record m { rooms = put room_id r m.rooms }) else (full, m)

unfoldable pub join_room : RoomManager → ℕ → Connection → JoinResult × RoomManager
join_room m room_id conn = elim (get_room m room_id) [
  | none ↦ (not_found, m)
  | some room ↦
      if room.closed
      then (closed, m)
      else if leb m.config.max_participants_per_room (length room.participants)
      then (full, m)
      else enter m room_id room conn
]

unfoldable pub remove_room : RoomManager → ℕ → RoomManager
remove_room m room_id = record m { rooms = erase room_id m.rooms }
