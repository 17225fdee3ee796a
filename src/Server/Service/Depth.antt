-- ===== src/Server/Service/Depth.antt =====
-- meeting_service.cpp, room.cpp and connection.cpp in server/src: the depth of the calls that
-- closing a connection leads to.
use cloud_meeting_client.Server.Connection.{Connection, mark_closed}
use cloud_meeting_client.Server.Room.{Room, Participant, broadcast}
use cloud_meeting_client.Server.Service.{
  World, close_all, close_room, drop_participant, remove_participant, on_connection_close,
  notify_close, close_step, cleanup_room, with_room, forget_handler, with_connection, close_at,
  close, open_at,
}
use cloud_meeting_client.Prelude.{
  Map, lookup, ◌≡◌, arith, true, length, ◌+◌, refl, ◌≤◌, Option-cases, inr, ℕ, [], inl, some, ◌∷◌,
  erase, min, zero, false, sym, suc, Bool, Bool-cases, not, ◌&&◌,
}
use cloud_meeting_client.Server.Protocol.Codec.{encode}
use cloud_meeting_client.Server.Protocol.MessageType.{partner_exit}
use cloud_meeting_client.Server.Service.Opens.{
  opens, count_open-put, weight, count_open-broadcast_to, count_open-le,
}
use cloud_meeting_client.Server.Service.Shut.{close_at_keeps, close_at_shuts}

abbrev Shrinks : (ℕ → World → World) → Type 0
Shrinks f = (id : ℕ) (w : World) → opens (f id w) ≤ opens w

opens-forget_handler : (id : ℕ) (w : World) → opens (forget_handler id w) ≡ opens w
unfolding forget_handler
opens-forget_handler id w = elim (Option-cases (lookup id w.connections)) [
  | inl e ↦ rw (e, forget_handler)
  | inr (c, e) ↦
      rw (e, forget_handler)
        (omega
          (arith, count_open-put id c (record c { has_close_handler = false }) w.connections e))
]

-- Closing an open connection leaves one fewer, and marking a closed one none.
opens-mark_closed :
    (id : ℕ) (c : Connection) (w : World)
    → lookup id w.connections ≡ some c
    → opens (with_connection id (mark_closed c) w) + weight c ≡ opens w
unfolding mark_closed
opens-mark_closed id c w e = omega (arith, count_open-put id c (mark_closed c) w.connections e)

module _ (f : ℕ → World → World) (s : Shrinks f) where
  close_all-le : (ps : Map Participant) (w : World) → opens (close_all f ps w) ≤ opens w
  unfolding close_all
  close_all-le [] w = omega arith
  close_all-le ((id, p) ∷ ps) w =
      ground (arith, close_all-le ps (f id w), s id w, close_all-le ps w)

  close_room-le : (r : ℕ) (room : Room) (w : World) → opens (close_room f r room w) ≤ opens w
  unfolding close_room cleanup_room
  close_room-le r room w = ground (
    arith,
    close_all-le room.participants
        (with_room r (record room { closed = true; participants = [] }) w),
  )

  drop_participant-le :
      (r : ℕ) (room : Room) (id : ℕ) (p : Participant) (w : World)
      → opens (drop_participant f r room id p w) ≤ opens w
  unfolding drop_participant broadcast
  drop_participant-le r room id p w =
      let left = record room { participants = erase id room.participants } in
      ground (
        arith,
        close_room-le r left (with_room r left w),
        count_open-broadcast_to left.participants 0
            (encode (record { type = partner_exit; ip = p.ip_network; payload = [] }))
            w.connections,
      )

  remove_participant-le : (r id : ℕ) (w : World) → opens (remove_participant f r id w) ≤ opens w
  unfolding remove_participant
  remove_participant-le r id w = grind (arith, drop_participant-le)

  on_connection_close-le : (id : ℕ) (w : World) → opens (on_connection_close f id w) ≤ opens w
  unfolding on_connection_close
  on_connection_close-le id w = grind (arith, remove_participant-le)

  notify_close-le : (id : ℕ) (w : World) → opens (notify_close f id w) ≤ opens w
  unfolding notify_close
  notify_close-le id w =
      ground
        (arith, on_connection_close-le id w, opens-forget_handler id (on_connection_close f id w))

  close_step-le : (id : ℕ) (w : World) → opens (close_step f id w) ≤ opens w
  unfolding close_step
  close_step-le id w = elim (Option-cases (lookup id w.connections)) [
    | inl e ↦ rw (e, close_step) (omega arith)
    | inr (c, e) ↦
        rw (e, close_step)
          (ground (
            arith,
            notify_close-le id (with_connection id (mark_closed c) w),
            opens-mark_closed id c w e,
          ))
  ]

and_false : (b : Bool) → (b && false) ≡ false
and_false b = ground arith

-- Two bounds on the depth agree on the worlds with few open connections.
module _ (f g : ℕ → World → World) (s : Shrinks f) (k : ℕ)
    (agree : (id : ℕ) (w : World) → opens w ≤ k → f id w ≡ g id w) where
  close_all-agree :
      (ps : Map Participant) (w : World) → opens w ≤ k → close_all f ps w ≡ close_all g ps w
  unfolding close_all
  close_all-agree [] w h = refl
  close_all-agree ((id, p) ∷ ps) w h =
      ground (arith, agree id w h, s id w, close_all-agree ps (f id w), close_all-agree ps w)

  close_room-agree :
      (r : ℕ) (room : Room) (w : World)
      → opens w ≤ k
      → close_room f r room w ≡ close_room g r room w
  unfolding close_room
  close_room-agree r room w h = ground (
    arith,
    close_all-agree room.participants
        (with_room r (record room { closed = true; participants = [] }) w) h,
  )

  drop_participant-agree :
      (r : ℕ) (room : Room) (id : ℕ) (p : Participant) (w : World)
      → opens w ≤ k
      → drop_participant f r room id p w ≡ drop_participant g r room id p w
  unfolding drop_participant
  drop_participant-agree r room id p w h =
      let left = record room { participants = erase id room.participants } in
      ground (arith, close_room-agree r left (with_room r left w) h)

  remove_participant-agree :
      (r id : ℕ) (w : World)
      → opens w ≤ k
      → remove_participant f r id w ≡ remove_participant g r id w
  unfolding remove_participant
  remove_participant-agree r id w h = grind (arith, drop_participant-agree)

  on_connection_close-agree :
      (id : ℕ) (w : World) → opens w ≤ k → on_connection_close f id w ≡ on_connection_close g id w
  unfolding on_connection_close
  on_connection_close-agree id w h = grind (arith, remove_participant-agree)

  notify_close-agree :
      (id : ℕ) (w : World) → opens w ≤ k → notify_close f id w ≡ notify_close g id w
  unfolding notify_close
  notify_close-agree id w h = ground (arith, on_connection_close-agree id w h)

  close_step-agree : (id : ℕ) (w : World) → opens w ≤ suc k → close_step f id w ≡ close_step g id w
  unfolding close_step
  close_step-agree id w h = elim (Option-cases (lookup id w.connections)) [
    | inl e ↦ rw (e, close_step)
    | inr (c, e) ↦
        rw (e, close_step)
          (ground (
            arith,
            notify_close-agree id (with_connection id (mark_closed c) w),
            opens-mark_closed id c w e,
          ))
  ]

close_at-le : (depth : ℕ) → Shrinks (close_at depth)
unfolding close_at
close_at-le zero id w = omega arith
close_at-le (suc depth) id w = close_step-le (close_at depth) (close_at-le depth) id w

none_open : (f : ℕ → World → World) (id : ℕ) (w : World) → opens w ≤ 0 → close_step f id w ≡ w
unfolding close_step
none_open f id w h = elim (Option-cases (lookup id w.connections)) [
  | inl e ↦ rw (e, close_step)
  | inr (c, e) ↦ rw (e, close_step) (ground (arith, opens-mark_closed id c w e))
]

-- Any two depths that are not below the number of open connections give the same result.
close_at_enough :
    (d e id : ℕ) (w : World) → opens w ≤ d → opens w ≤ e → close_at d id w ≡ close_at e id w
unfolding close_at
close_at_enough zero zero id w h l = refl
close_at_enough zero (suc e) id w h l = sym (none_open (close_at e) id w h)
close_at_enough (suc d) zero id w h l = none_open (close_at d) id w l
close_at_enough (suc d) (suc e) id w h l =
    close_step-agree (close_at d) (close_at e) (close_at-le d) (min d e)
      (λ i v m. close_at_enough d e i v (omega arith) (omega arith)) id w (omega arith)

-- No connection is open after that was not open before.
none_reopened :
    (depth id j : ℕ) (w : World)
    → (open_at j (close_at depth id w).connections && not (open_at j w.connections)) ≡ false
none_reopened depth id j w = elim (Bool-cases (open_at j w.connections)) [
  | inl e ↦ rw e (and_false (open_at j (close_at depth id w).connections))
  | inr e ↦ rw (close_at_keeps depth j id w e) refl
]

-- Closing a connection comes to an end: any depth of calls from the number of connections that are not
-- closed on gives what `close` gives. After it there are no more of these than before, the
-- connection is not open, and every connection `j` that is open, with its socket, was open before.
pub close_lem :
    (depth id j : ℕ) (w : World)
    → opens w ≤ depth
    → (close_at depth id w ≡ close id w)
      × (opens (close id w) ≤ opens w)
      × (open_at id (close id w).connections ≡ false)
      × ((open_at j (close id w).connections && not (open_at j w.connections)) ≡ false)
unfolding close
close_lem depth id j w h = (
  close_at_enough depth (suc (length w.connections)) id w h
      (omega (arith, count_open-le w.connections)),
  close_at-le (suc (length w.connections)) id w,
  close_at_shuts (suc (length w.connections)) id w (omega arith),
  none_reopened (suc (length w.connections)) id j w,
)
