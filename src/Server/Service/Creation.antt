-- ===== src/Server/Service/Creation.antt =====
-- meeting_service.cpp: what a connection that creates a meeting comes to.
use cloud_meeting_client.Server.Connection.{Connection, is_open, send, do_write}
use cloud_meeting_client.Server.Protocol.Codec.{encode}
use cloud_meeting_client.Server.Protocol.MessageType.{create_meeting_response}
use cloud_meeting_client.Server.Room.{Room, ServerConfig, new_room, add_participant}
use cloud_meeting_client.Server.RoomManager.{RoomManager, create_room, get_room}
use cloud_meeting_client.Server.Service.{World, with_room, with_connection}
use cloud_meeting_client.Server.Service.Handlers.{
  reply, response, set_close_callback, handle_create_meeting,
}
use cloud_meeting_client.Prelude.{
  lookup, lookup-emplace, lookup-put, ◌+◌, ℕ, false, ◌∙◌, ◌^◌, emplace, arith, ◌<◌, length, ◌≡◌,
  Bool, ◌∷◌, some, true, ◌%◌, [], none, ap, put, sym, subst, refl,
}
use cloud_meeting_client.Server.Service.Dissolve.{Owns}

-- The room of a new meeting, when its owner is added: without and with the callback.
abbrev pub meeting_of : ℕ → Connection → ServerConfig → Bool → Room
meeting_of r conn config callback = record {
  room_id = r;
  config = config;
  closed = false;
  participants = (conn.id, record { ip_network = conn.peer_ip; is_owner = true }) ∷ [];
  has_close_callback = callback;
}

new_room_lem :
    (r : ℕ) (conn : Connection) (config : ServerConfig)
    → is_open conn ≡ true
    → 0 < config.max_participants_per_room
    → new_room r conn config ≡ meeting_of r conn config false
unfolding new_room add_participant
new_room_lem r conn config live h = ground arith

-- A connection that can create a meeting: open, in no room, and there is a place for the room.
pub record CanCreate (conn : Connection) (w : World) : Type 0 where
  pub known : lookup conn.id w.connections ≡ some conn
  pub live : is_open conn ≡ true
  pub in_no_room : lookup conn.id w.connection_room ≡ none
  pub few_rooms : length w.manager.rooms < w.manager.config.max_rooms
  pub place : 0 < w.manager.config.max_participants_per_room
  pub new_id : get_room w.manager w.manager.next_room_id ≡ none

module _ (conn : Connection) (w : World) (can : CanCreate conn w) where
  abbrev r : ℕ
  r = w.manager.next_room_id

  abbrev made : RoomManager
  made = record w.manager {
    rooms = emplace r (meeting_of r conn w.manager.config false) w.manager.rooms;
    next_room_id = (r + 1) % 2 ^ 32;
  }

  create_room_lem : create_room w.manager conn ≡ (some r, made)
  unfolding create_room
  create_room_lem =
      ground
        (arith, can.live, can.few_rooms, new_room_lem r conn w.manager.config can.live can.place)

  abbrev entered : World
  entered = record w { manager = made; connection_room = emplace conn.id r w.connection_room }

  there : get_room made r ≡ some (meeting_of r conn w.manager.config false)
  there =
      lookup-emplace r r (meeting_of r conn w.manager.config false) w.manager.rooms
      ∙ rw can.new_id (ground arith)

  abbrev answered : Connection
  answered = send conn (encode (response create_meeting_response r))

  abbrev meeting : Room
  meeting = meeting_of r conn w.manager.config true

  owned : get_room (with_room r meeting entered).manager r ≡ some meeting
  owned = lookup-put r r meeting made.rooms ∙ rw there (ground arith)

  callback_set : set_close_callback r entered ≡ with_room r meeting entered
  unfolding set_close_callback
  callback_set = rw (there, set_close_callback) refl

  replied :
      (v : World)
      → lookup conn.id v.connections ≡ some conn
      → reply conn.id (response create_meeting_response r) v ≡ with_connection conn.id answered v
  unfolding reply
  replied v e = rw (e, reply) refl

  handled :
      handle_create_meeting conn w ≡ with_connection conn.id answered (with_room r meeting entered)
  unfolding handle_create_meeting
  handled =
      rw (create_room_lem, handle_create_meeting)
        (ap
            (λ m. reply conn.id (response create_meeting_response r) (
              set_close_callback r
                (record w { manager = m; connection_room = emplace conn.id r w.connection_room })))
            (ap (λ x. x.1) create_room_lem)
          ∙ ap (reply conn.id (response create_meeting_response r)) callback_set
          ∙ replied (with_room r meeting entered) can.known)

  known_after : lookup conn.id (put conn.id answered w.connections) ≡ some answered
  known_after = lookup-put conn.id conn.id answered w.connections ∙ rw can.known (ground arith)

  mapped_after : lookup conn.id (emplace conn.id r w.connection_room) ≡ some r
  mapped_after =
      lookup-emplace conn.id conn.id r w.connection_room ∙ rw can.in_no_room (ground arith)

  -- A connection that can create a meeting and has its close handler, on the request to create one,
  -- owns from then on an open room under the next room's number, of which it is the only participant,
  -- and is sent that number.
  pub handle_create_meeting-Owns :
      conn.has_close_handler ≡ true
      → Owns conn.id w.manager.next_room_id
          (send conn (encode (response create_meeting_response w.manager.next_room_id)))
          (meeting_of w.manager.next_room_id conn w.manager.config true)
          (record { ip_network = conn.peer_ip; is_owner = true })
          (handle_create_meeting conn w)
  unfolding send do_write
  handle_create_meeting-Owns watched =
      subst
        (Owns conn.id r answered meeting (record { ip_network = conn.peer_ip; is_owner = true }))
        (sym handled)
        (record {
          known = known_after;
          not_closed = ground (arith, can.live);
          watched = ground (arith, watched);
          in_room = mapped_after;
          room_there = owned;
          room_open = refl;
          room_watched = refl;
          member = ground arith;
          owner = refl;
        })
