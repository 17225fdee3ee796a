-- ===== src/Server/Service/Dissolve.antt =====
-- meeting_service.cpp and room.cpp in server/src: what becomes of a room when its owner leaves.
use cloud_meeting_client.Server.Room.{Room, Participant, Connections}
use cloud_meeting_client.Server.RoomManager.{get_room, remove_room}
use cloud_meeting_client.Server.Service.{
  World, close_all, close_room, cleanup_room, forget_room, with_room, open_at, forget_handler,
  with_connection, on_connection_close, remove_participant, drop_participant, notify_close,
  close_step, close, close_at,
}
use cloud_meeting_client.Server.Service.Shut.{
  IsShut, KeepsShut, close_all_keeps, forget_handler-KeepsShut, close_step_shuts, close_at_keeps,
  close_at_shuts,
}
use cloud_meeting_client.Prelude.{
  Map, lookup, lookup-erase, ◌≡◌, ℕ, none, Bool-cases, arith, inl, true, ◌∙◌, [], ◌≢◌, ◌∷◌, inr,
  some, false, ◌==◌, subst, erase, refl, Option-cases, ◌<◌, length, ap, sym, lookup-put, put,
}
use cloud_meeting_client.Server.Connection.{Connection, mark_closed}

-- The room is gone, no connection is said to be in it, and none of its participants is open.
pub record Dissolved (r : ℕ) (ps : Map Participant) (w : World) : Type 0 where
  pub gone : get_room w.manager r ≡ none
  pub forgotten : (id : ℕ) → lookup id w.connection_room ≢ some r
  pub shut : (j : ℕ) (p : Participant) → lookup j ps ≡ some p → IsShut j w.connections

forget_room_lem : (r id : ℕ) (m : Map ℕ) → lookup id (forget_room r m) ≢ some r
unfolding forget_room
forget_room_lem r id [] e = cc
forget_room_lem r id ((j, s) ∷ m) e = ground (arith, forget_room_lem r id m, e)

forget_handler-Dissolved :
    (id r : ℕ) (ps : Map Participant) (w : World)
    → Dissolved r ps w
    → Dissolved r ps (forget_handler id w)
unfolding forget_handler
forget_handler-Dissolved id r ps w d = elim (Option-cases (lookup id w.connections)) [
  | inl e ↦ rw (e, forget_handler) d
  | inr (c, e) ↦ record {
    gone = rw (e, forget_handler) d.gone;
    forgotten = rw (e, forget_handler) d.forgotten;
    shut = λ j p h. forget_handler-KeepsShut j id w (d.shut j p h);
  }
]

module _ (f : ℕ → World → World) (keeps : KeepsShut f)
    (shuts : (id : ℕ) (w : World) → IsShut id (f id w).connections) where
  close_all_shuts :
      (ps : Map Participant) (j : ℕ) (p : Participant) (w : World)
      → lookup j ps ≡ some p
      → IsShut j (close_all f ps w).connections
  unfolding close_all
  close_all_shuts [] j p w e = cc
  close_all_shuts ((id, q) ∷ ps) j p w e = elim (Bool-cases (id == j)) [
    | inl same ↦
        let eq : id ≡ j = ground (arith, same) in
        elim (Bool-cases (open_at id w.connections)) [
          | inl live ↦
              rw (live, close_all)
                (close_all_keeps f keeps j ps (f id w)
                  (subst (λ k. IsShut k (f id w).connections) eq (shuts id w)))
          | inr dead ↦
              rw (dead, close_all)
                (close_all_keeps f keeps j ps w (subst (λ k. IsShut k w.connections) eq dead))
        ]
    | inr other ↦ close_all_shuts ps j p _ (ground (arith, e, other))
  ]

  close_room-Dissolved :
      (r : ℕ) (room : Room) (w : World)
      → room.closed ≡ false
      → room.has_close_callback ≡ true
      → Dissolved r room.participants (close_room f r room w)
  unfolding close_room cleanup_room remove_room
  close_room-Dissolved r room w fresh callback =
      let emptied =
        with_room r (record room { closed = true; participants = []; has_close_callback = true })
          w in
      let done = close_all f room.participants emptied in
      rw (fresh, callback)
        (record {
          gone = lookup-erase r r done.manager.rooms ∙ ground arith;
          forgotten = λ id. forget_room_lem r id done.connection_room;
          shut = λ j p e. close_all_shuts room.participants j p emptied e;
        })

-- A connection that is open for the service, in an open room of the manager that it owns.
pub record Owns (id r : ℕ) (c : Connection) (room : Room) (p : Participant) (w : World)
    : Type 0 where
  pub known : lookup id w.connections ≡ some c
  pub not_closed : c.closed ≡ false
  pub watched : c.has_close_handler ≡ true
  pub in_room : lookup id w.connection_room ≡ some r
  pub room_there : get_room w.manager r ≡ some room
  pub room_open : room.closed ≡ false
  pub room_watched : room.has_close_callback ≡ true
  pub member : lookup id room.participants ≡ some p
  pub owner : p.is_owner ≡ true

module _ (f : ℕ → World → World) (id r : ℕ) (c : Connection) (room : Room) (p : Participant)
    (w : World) (o : Owns id r c room p w) where
  abbrev left : Room
  left = record room { participants = erase id room.participants }

  abbrev told : World
  told = record (with_connection id (mark_closed c) w) {
    connection_room = erase id w.connection_room;
  }

  found : remove_participant f r id told ≡ drop_participant f r room id p told
  unfolding remove_participant
  found = rw (o.room_there, remove_participant) (simp (o.room_open, o.member) refl)

  -- The calls that the close of an owner leads to.
  owner_leaves :
      on_connection_close f id (with_connection id (mark_closed c) w)
      ≡ close_room f r left (with_room r left told)
  unfolding on_connection_close drop_participant
  owner_leaves = rw (o.in_room, on_connection_close) (found ∙ rw (o.owner, drop_participant) refl)

  still_watched : (mark_closed c).has_close_handler ≡ true
  unfolding mark_closed
  still_watched = o.watched

  notified :
      notify_close f id (with_connection id (mark_closed c) w)
      ≡ forget_handler id (close_room f r left (with_room r left told))
  unfolding notify_close
  notified =
      let now : lookup id (put id (mark_closed c) w.connections) ≡ some (mark_closed c) =
        lookup-put id id (mark_closed c) w.connections ∙ rw o.known (ground arith) in
      rw (now, notify_close) (simp still_watched (ap (forget_handler id) owner_leaves))

  closes : close_step f id w ≡ forget_handler id (close_room f r left (with_room r left told))
  unfolding close_step
  closes = rw (o.known, close_step) (simp o.not_closed notified)

  close_step-Dissolved :
      KeepsShut f
      → ((i : ℕ) (v : World) → IsShut i (f i v).connections)
      → Dissolved r room.participants (close_step f id w)
  close_step-Dissolved keeps shuts =
      let rest : Dissolved r left.participants (close_step f id w) =
        subst (Dissolved r left.participants) (sym closes) (
          forget_handler-Dissolved id r left.participants
            (close_room f r left (with_room r left told))
            (close_room-Dissolved f keeps shuts r left (with_room r left told) o.room_open
              o.room_watched)) in
      record {
        gone = rest.gone;
        forgotten = rest.forgotten;
        shut = λ j q e. elim (Bool-cases (id == j)) [
          | inl same ↦
              subst (λ k. IsShut k (close_step f id w).connections) {x = id} {y = j}
                (ground (arith, same)) (close_step_shuts f keeps id w)
          | inr other ↦ rest.shut j q (lookup-erase id j room.participants ∙ rw other e)
        ];
      }

some_connection :
    (id : ℕ) (c : Connection) (cs : Connections) → lookup id cs ≡ some c → 0 < length cs
some_connection id c [] e = cc
some_connection id c (x ∷ cs) e = omega arith

-- When a connection closes that owns an open room of the manager, the room is gone, no connection is
-- said to be in it any more, and none of its participants has an open connection.
pub close-Dissolved :
    (id r : ℕ) (c : Connection) (room : Room) (p : Participant) (w : World)
    → Owns id r c room p w
    → Dissolved r room.participants (close id w)
unfolding close close_at
close-Dissolved id r c room p w o =
    let depth = length w.connections in
    close_step-Dissolved (close_at depth) id r c room p w o (close_at_keeps depth)
      (λ i v. close_at_shuts depth i v (some_connection id c w.connections o.known))
