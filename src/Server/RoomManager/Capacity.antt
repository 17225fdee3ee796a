-- ===== src/Server/RoomManager/Capacity.antt =====
-- server/src/meeting/room_manager.cpp: the limits of the configuration, and what joining a room
-- comes to.
use cloud_meeting_client.Server.Connection.{Connection, is_open}
use cloud_meeting_client.Server.Room.{Room, ServerConfig, new_room, add_participant, Participant}
use cloud_meeting_client.Server.RoomManager.{
  JoinResult, RoomManager, create_room, get_room, enter, join_room, remove_room,
}
use cloud_meeting_client.Prelude.{
  ℕ, IsMap, Bool, ◌≤◌, All, length, ◌≡◌, ◌∷◌, refl, [], inr, ◌||◌, some, ap, length-emplace,
  emplace, arith, emplace-IsMap, leb, inl, true, not, Bool-cases, put, none, ◌<◌, false,
  Option-cases, put-IsMap, List, length-erase-le, length-put, erase-IsMap,
}
use cloud_meeting_client.Server.RoomManager.Rooms.{
  emplace-AllRooms, lookup-AllRooms, erase-AllRooms, put-AllRooms,
}

-- A room keeps the manager's limits, and is within them.
pub record Fits (config : ServerConfig) (room : Room) : Type 0 where
  pub same_config : room.config ≡ config
  pub not_over : length room.participants ≤ config.max_participants_per_room
  pub one_entry_each : IsMap room.participants

pub record IsValid (m : RoomManager) : Type 0 where
  pub few_rooms : length m.rooms ≤ m.config.max_rooms
  pub all_fit : All (λ (e : ℕ × Room). Fits m.config e.1) m.rooms
  pub one_room_each : IsMap m.rooms

pub add_participant-Fits :
    (config : ServerConfig) (room : Room) (conn : Connection) (is_owner : Bool)
    → Fits config room
    → Fits config (add_participant room conn is_owner).1
unfolding add_participant
add_participant-Fits config room conn is_owner f =
    let p : Participant = record { ip_network = conn.peer_ip; is_owner = is_owner } in
    elim (Bool-cases (room.closed || not (is_open conn))) [
      | inl bad ↦ rw bad f
      | inr good ↦
          rw good
            (elim (Bool-cases
              (leb room.config.max_participants_per_room (length room.participants))) [
                | inl full ↦ rw full f
                | inr room_left ↦ rw room_left (record {
                  same_config = f.same_config;
                  not_over = ground (
                    arith,
                    length-emplace conn.id p room.participants,
                    ap (λ (c : ServerConfig). c.max_participants_per_room) f.same_config,
                  );
                  one_entry_each = emplace-IsMap conn.id p room.participants f.one_entry_each;
                })
              ])
    ]

pub new_room-Fits :
    (config : ServerConfig) (room_id : ℕ) (owner : Connection)
    → Fits config (new_room room_id owner config)
unfolding new_room
new_room-Fits config room_id owner =
    add_participant-Fits config _ owner true
      (record { same_config = refl; not_over = omega arith; one_entry_each = tt })

create_room-IsValid :
    (m : RoomManager) (owner : Connection) → IsValid m → IsValid (create_room m owner).1
unfolding create_room
create_room-IsValid m owner v =
    let r = new_room m.next_room_id owner m.config in
    let fits = new_room-Fits m.config m.next_room_id owner in
    elim (Bool-cases (is_open owner)) [
      | inr shut ↦ rw shut v
      | inl alive ↦ rw alive (elim (Bool-cases (leb m.config.max_rooms (length m.rooms))) [
        | inl full ↦ rw full v
        | inr space ↦ rw space (record {
          few_rooms = ground (arith, length-emplace m.next_room_id r m.rooms);
          all_fit = emplace-AllRooms (Fits m.config) m.next_room_id r m.rooms fits v.all_fit;
          one_room_each = emplace-IsMap m.next_room_id r m.rooms v.one_room_each;
        })
      ])
    ]

-- What `join_room` returns, with the circumstances. A connection that is not open is turned away
-- as from a full room.
pub data Joined (m : RoomManager) (r : ℕ) (conn : Connection) (out : JoinResult × RoomManager)
    : Type 0 where
  missing : get_room m r ≡ none → out ≡ (JoinResult.not_found, m) → Joined m r conn out
  shut :
      (room : Room)
      → get_room m r ≡ some room
      → room.closed ≡ true
      → out ≡ (JoinResult.closed, m)
      → Joined m r conn out
  no_place :
      (room : Room)
      → get_room m r ≡ some room
      → room.closed ≡ false
      → m.config.max_participants_per_room ≤ length room.participants
      → out ≡ (JoinResult.full, m)
      → Joined m r conn out
  not_open :
      (room : Room)
      → get_room m r ≡ some room
      → is_open conn ≡ false
      → out ≡ (JoinResult.full, m)
      → Joined m r conn out
  entered :
      (room : Room)
      → get_room m r ≡ some room
      → room.closed ≡ false
      → is_open conn ≡ true
      → length room.participants < m.config.max_participants_per_room
      → out ≡ (
        JoinResult.ok,
        record m {
          rooms =
              put r
                (record room {
                  participants =
                      emplace conn.id
                        (record { ip_network = conn.peer_ip; is_owner = false })
                        room.participants;
                })
                m.rooms;
        },
      )
      → Joined m r conn out

-- Every call of `join_room` on a manager within its limits ends in one of five ways: no such
-- room, a closed room, a full room, a connection that is not open, which gets the answer for a
-- full room, or the connection added as a member; and only the last changes the manager.
pub join_room_lem :
    (m : RoomManager) (r : ℕ) (conn : Connection) → IsValid m → Joined m r conn (join_room m r conn)
unfolding join_room enter add_participant
join_room_lem m r conn v = elim (Option-cases (get_room m r)) [
  | inl e ↦ missing e (rw (e, join_room))
  | inr (room, e) ↦
      let fits : Fits m.config room = lookup-AllRooms (Fits m.config) r room m.rooms e v.all_fit in
      elim (Bool-cases room.closed) [
        | inl c ↦ shut room e c (rw (e, join_room) (rw c))
        | inr c ↦
            elim (Bool-cases (leb m.config.max_participants_per_room (length room.participants))) [
              | inl full ↦
                  no_place room e c (ground arith) (rw (e, join_room) (ground (arith, c, full)))
              | inr space ↦ elim (Bool-cases (is_open conn)) [
                | inr dead ↦
                    not_open room e dead (rw (e, join_room) (ground (arith, c, space, dead)))
                | inl alive ↦ entered room e c alive (ground arith) (
                    rw (e, join_room)
                      (ground (
                        arith,
                        c,
                        space,
                        alive,
                        ap (λ (k : ServerConfig). k.max_participants_per_room) fits.same_config,
                      )))
              ]
            ]
      ]
]

-- What clients make a manager do.
pub data Request : Type 0 where
  creates : Connection → Request
  joins : ℕ → Connection → Request
  removes : ℕ → Request

pub serve : Request → RoomManager → RoomManager
serve (creates conn) m = (create_room m conn).1
serve (joins r conn) m = (join_room m r conn).1
serve (removes r) m = remove_room m r

pub serve_all : List Request → RoomManager → RoomManager
serve_all [] m = m
serve_all (q ∷ qs) m = serve_all qs (serve q m)

Joined-IsValid :
    (m : RoomManager) (r : ℕ) (conn : Connection) (out : JoinResult × RoomManager)
    → IsValid m
    → Joined m r conn out
    → IsValid out.1
Joined-IsValid m r conn out v (missing e o) = rw o v
Joined-IsValid m r conn out v (shut room e c o) = rw o v
Joined-IsValid m r conn out v (no_place room e c n o) = rw o v
Joined-IsValid m r conn out v (not_open room e c o) = rw o v
Joined-IsValid m r conn out v (entered room e c alive l o) =
    let p : Participant = record { ip_network = conn.peer_ip; is_owner = false } in
    let room' : Room = record room { participants = emplace conn.id p room.participants } in
    let fits : Fits m.config room = lookup-AllRooms (Fits m.config) r room m.rooms e v.all_fit in
    rw o (record {
      few_rooms = omega (arith, length-put r room' m.rooms, v.few_rooms);
      all_fit =
          put-AllRooms (Fits m.config) r room' m.rooms
            (record {
              same_config = fits.same_config;
              not_over = ground (arith, length-emplace conn.id p room.participants);
              one_entry_each = emplace-IsMap conn.id p room.participants fits.one_entry_each;
            })
            v.all_fit;
      one_room_each = put-IsMap r room' m.rooms v.one_room_each;
    })

serve-IsValid : (q : Request) (m : RoomManager) → IsValid m → IsValid (serve q m)
unfolding serve remove_room
serve-IsValid (creates conn) m v = create_room-IsValid m conn v
serve-IsValid (joins r conn) m v =
    Joined-IsValid m r conn (join_room m r conn) v (join_room_lem m r conn v)
serve-IsValid (removes r) m v = record {
  few_rooms = omega (arith, length-erase-le r m.rooms, v.few_rooms);
  all_fit = erase-AllRooms (Fits m.config) r m.rooms v.all_fit;
  one_room_each = erase-IsMap r m.rooms v.one_room_each;
}

-- No sequence of creations, joins and removals takes a manager that is within its limits over its
-- number of rooms, or any of its rooms over the number of participants, and each id keeps
-- standing once among the rooms and each connection once among a room's participants.
pub serve_all-IsValid : (qs : List Request) (m : RoomManager) → IsValid m → IsValid (serve_all qs m)
unfolding serve_all
serve_all-IsValid [] m v = v
serve_all-IsValid (q ∷ qs) m v = serve_all-IsValid qs (serve q m) (serve-IsValid q m v)
