-- ===== src/Server/Service/Shut.antt =====
-- meeting_service.cpp, room.cpp and connection.cpp in server/src: the connections that are not
-- open.
use cloud_meeting_client.Server.Connection.{Connection, send, do_write, is_open, mark_closed}
use cloud_meeting_client.Server.Room.{
  Connections, Room, Participant, receive, deliver, broadcast_to, broadcast,
}
use cloud_meeting_client.Server.Service.{
  World, open_at, close_all, close_room, drop_participant, remove_participant, on_connection_close,
  notify_close, cleanup_room, with_room, forget_handler, close_step, close_at, with_connection,
}
use cloud_meeting_client.Server.Protocol.Codec.{encode}
use cloud_meeting_client.Server.Protocol.MessageType.{partner_exit}
use cloud_meeting_client.Prelude.{
  Map, lookup, lookup-put, arith, some, ◌≡◌, true, ℕ, [], ◌∷◌, ◌==◌, erase, put, false, Bytes, inr,
  Bool-cases, ◌∙◌, inl, Option-cases, none, sym, ap, refl, ◌<◌, zero, suc, Bool, Option,
}

-- There is no open connection at `j`.
abbrev pub IsShut : ℕ → Connections → Type 0
IsShut j cs = open_at j cs ≡ false

abbrev pub KeepsShut : (ℕ → World → World) → Type 0
KeepsShut f = (j id : ℕ) (w : World) → IsShut j w.connections → IsShut j (f id w).connections

abbrev or_shut : Option Connection → Bool
or_shut none = false
or_shut (some c) = is_open c

IsShut-some :
    (j : ℕ) (c : Connection) (cs : Connections)
    → lookup j cs ≡ some c
    → is_open c ≡ false
    → IsShut j cs
IsShut-some j c cs e h = ap or_shut e ∙ h

-- A change to one connection that does not open it.
IsShut-put :
    (j id : ℕ) (c d : Connection) (cs : Connections)
    → lookup id cs ≡ some c
    → (is_open c ≡ false → is_open d ≡ false)
    → IsShut j cs
    → IsShut j (put id d cs)
IsShut-put j id c d cs e h shut = elim (Bool-cases (id == j)) [
  | inl same ↦
      let at_j : lookup j cs ≡ some c =
        ap (λ k. lookup k cs) {x = j} {y = id} (ground (arith, same)) ∙ e in
      let now : lookup j (put id d cs) ≡ some d = lookup-put id j d cs ∙ rw (at_j, same) refl in
      IsShut-some j d (put id d cs) now (h (sym (ap or_shut at_j) ∙ shut))
  | inr other ↦
      let now : lookup j (put id d cs) ≡ lookup j cs =
        ground (arith, lookup-put id j d cs, other) in
      ap or_shut now ∙ shut
]

is_open-receive : (d : Bytes) (c : Connection) → is_open (receive d c) ≡ is_open c
unfolding receive send do_write
is_open-receive d c = ground arith

IsShut-deliver :
    (j id : ℕ) (d : Bytes) (cs : Connections) → IsShut j cs → IsShut j (deliver id d cs)
unfolding deliver
IsShut-deliver j id d cs shut = elim (Option-cases (lookup id cs)) [
  | inl e ↦ rw (e, deliver) shut
  | inr (c, e) ↦
      rw (e, deliver) (IsShut-put j id c (receive d c) cs e (λ h. is_open-receive d c ∙ h) shut)
]

IsShut-broadcast_to :
    (j : ℕ) (ps : Map Participant) (exclude : ℕ) (d : Bytes) (cs : Connections)
    → IsShut j cs
    → IsShut j (broadcast_to ps exclude d cs)
unfolding broadcast_to
IsShut-broadcast_to j [] exclude d cs shut = shut
IsShut-broadcast_to j ((id, p) ∷ ps) exclude d cs shut = elim (Bool-cases (id == exclude)) [
  | inl e ↦ rw e (IsShut-broadcast_to j ps exclude d cs shut)
  | inr e ↦
      rw e (IsShut-broadcast_to j ps exclude d (deliver id d cs) (IsShut-deliver j id d cs shut))
]

pub forget_handler-KeepsShut : KeepsShut forget_handler
unfolding forget_handler
forget_handler-KeepsShut j id w shut = elim (Option-cases (lookup id w.connections)) [
  | inl e ↦ rw (e, forget_handler) shut
  | inr (c, e) ↦
      rw (e, forget_handler)
        (IsShut-put j id c (record c { has_close_handler = false }) w.connections e (λ h. h) shut)
]

module _ (f : ℕ → World → World) (keeps : KeepsShut f) where
  pub close_all_keeps :
      (j : ℕ) (ps : Map Participant) (w : World)
      → IsShut j w.connections
      → IsShut j (close_all f ps w).connections
  unfolding close_all
  close_all_keeps j [] w shut = shut
  close_all_keeps j ((id, p) ∷ ps) w shut = elim (Bool-cases (open_at id w.connections)) [
    | inl e ↦ rw (e, close_all) (close_all_keeps j ps (f id w) (keeps j id w shut))
    | inr e ↦ rw (e, close_all) (close_all_keeps j ps w shut)
  ]

  close_room_keeps :
      (j r : ℕ) (room : Room) (w : World)
      → IsShut j w.connections
      → IsShut j (close_room f r room w).connections
  unfolding close_room cleanup_room
  close_room_keeps j r room w shut = ground (
    arith,
    close_all_keeps j room.participants
        (with_room r (record room { closed = true; participants = [] }) w) shut,
  )

  drop_participant_keeps :
      (j r : ℕ) (room : Room) (id : ℕ) (p : Participant) (w : World)
      → IsShut j w.connections
      → IsShut j (drop_participant f r room id p w).connections
  unfolding drop_participant broadcast
  drop_participant_keeps j r room id p w shut =
      let left = record room { participants = erase id room.participants } in
      elim (Bool-cases p.is_owner) [
        | inl e ↦ rw e (close_room_keeps j r left (with_room r left w) shut)
        | inr e ↦ rw e (
            IsShut-broadcast_to j left.participants 0
              (encode (record { type = partner_exit; ip = p.ip_network; payload = [] }))
              w.connections shut)
      ]

  remove_participant_keeps :
      (j r id : ℕ) (w : World)
      → IsShut j w.connections
      → IsShut j (remove_participant f r id w).connections
  unfolding remove_participant
  remove_participant_keeps j r id w shut = grind (arith, drop_participant_keeps)

  on_connection_close_keeps :
      (j id : ℕ) (w : World)
      → IsShut j w.connections
      → IsShut j (on_connection_close f id w).connections
  unfolding on_connection_close
  on_connection_close_keeps j id w shut = grind (arith, remove_participant_keeps)

  notify_close_keeps :
      (j id : ℕ) (w : World) → IsShut j w.connections → IsShut j (notify_close f id w).connections
  unfolding notify_close
  notify_close_keeps j id w shut = ground (
    arith,
    forget_handler-KeepsShut j id (on_connection_close f id w)
        (on_connection_close_keeps j id w shut),
    shut,
  )

  pub close_step_keeps : KeepsShut (close_step f)
  unfolding close_step mark_closed
  close_step_keeps j id w shut = elim (Option-cases (lookup id w.connections)) [
    | inl e ↦ rw (e, close_step) shut
    | inr (c, e) ↦
        rw (e, close_step)
          (ground (
            arith,
            shut,
            notify_close_keeps j id (with_connection id (mark_closed c) w)
                (IsShut-put j id c (mark_closed c) w.connections e (λ h. refl) shut),
          ))
  ]

  pub close_step_shuts : (id : ℕ) (w : World) → IsShut id (close_step f id w).connections
  unfolding close_step mark_closed
  close_step_shuts id w = elim (Option-cases (lookup id w.connections)) [
    | inl e ↦ rw (e, close_step) (rw (e, open_at) refl)
    | inr (c, e) ↦
        let at_id : lookup id (put id (mark_closed c) w.connections) ≡ some (mark_closed c) =
          lookup-put id id (mark_closed c) w.connections ∙ rw e (ground arith) in
        let marked : IsShut id (put id (mark_closed c) w.connections) =
          IsShut-some id (mark_closed c) _ at_id refl in
        elim (Bool-cases c.closed) [
          | inl old ↦ rw (e, close_step) (rw old (rw (e, open_at) (ground (arith, old))))
          | inr new ↦
              rw (e, close_step)
                (rw new (notify_close_keeps id id (with_connection id (mark_closed c) w) marked))
        ]
  ]

-- Closing, at whatever depth, opens no connection; and at a depth above 0 it closes its own.
pub close_at_keeps : (depth : ℕ) → KeepsShut (close_at depth)
unfolding close_at
close_at_keeps zero j id w shut = shut
close_at_keeps (suc depth) j id w shut =
    close_step_keeps (close_at depth) (close_at_keeps depth) j id w shut

pub close_at_shuts :
    (depth id : ℕ) (w : World) → 0 < depth → IsShut id (close_at depth id w).connections
unfolding close_at
close_at_shuts zero id w h = absurd (omega arith)
close_at_shuts (suc depth) id w h = close_step_shuts (close_at depth) (close_at_keeps depth) id w
