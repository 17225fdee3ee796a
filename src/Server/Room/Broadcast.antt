-- ===== src/Server/Room/Broadcast.antt =====
-- room.cpp: who gets what from `broadcast`, `handle_packet` and `notify_user_joined`.
use cloud_meeting_client.Server.Connection.{Connection}
use cloud_meeting_client.Server.Room.{
  Participant, Connections, receive, deliver, broadcast_to, handle_packet, Room, forward, broadcast,
  outbound_type,
}
use cloud_meeting_client.Prelude.{
  none, Option-cases, inl, lookup-put, Map, Bool, false, ◌∷◌, lookup, ℕ, some, not, Option,
  if◌then◌else◌, arith, refl, Bytes, [], IsMap, inr, ◌==◌, ◌≡◌,
}
use cloud_meeting_client.Server.Protocol.{Packet}
use cloud_meeting_client.Server.Protocol.MessageType.{
  text_send, text_recv, audio_send, audio_recv, img_send, img_recv, close_camera,
}
use cloud_meeting_client.Server.Protocol.Codec.{encode}

-- What becomes of a connection that a block is sent to.
abbrev pub received : Bytes → Option Connection → Option Connection
received d none = none
received d (some c) = some (receive d c)

lookup-deliver :
    (id j : ℕ) (d : Bytes) (cs : Connections)
    → lookup j (deliver id d cs) ≡ (if id == j then received d (lookup j cs) else lookup j cs)
unfolding deliver
lookup-deliver id j d cs = elim (Option-cases (lookup id cs)) [
  | inl e ↦ rw (e, deliver) (ground (arith, e))
  | inr (c, e) ↦ rw (e, deliver) (ground (arith, e, lookup-put id j (receive d c) cs))
]

-- A connection gets the block once if it stands among the participants and is not excluded.
unfoldable pub reached : ℕ → ℕ → Map Participant → Bool
reached j exclude ps = elim (lookup j ps) [ none ↦ false | some p ↦ not (j == exclude) ]

pub lookup-broadcast_to :
    (j exclude : ℕ) (d : Bytes) (ps : Map Participant) (cs : Connections)
    → IsMap ps
    → lookup j (broadcast_to ps exclude d cs)
      ≡ (if reached j exclude ps then received d (lookup j cs) else lookup j cs)
unfolding broadcast_to reached
lookup-broadcast_to j exclude d [] cs m = refl
lookup-broadcast_to j exclude d ((id, p) ∷ ps) cs m = ground (
  arith,
  lookup-broadcast_to j exclude d ps (if id == exclude then cs else deliver id d cs) m.1,
  lookup-deliver id j d cs,
)

-- The packet that the others get for a packet of a member with the address `ip`: media under the
-- type for receivers, a camera's end as it is, and nothing for any other type.
unfoldable pub relayed : ℕ → Packet → Option Packet
relayed ip packet =
    if packet.type == text_send
    then some (record packet { type = text_recv; ip = ip })
    else if packet.type == audio_send
    then some (record packet { type = audio_recv; ip = ip })
    else if packet.type == img_send
    then some (record packet { type = img_recv; ip = ip })
    else if packet.type == close_camera
    then some (record { type = close_camera; ip = ip; payload = [] })
    else none

-- A connection after the members but `from` were sent what there is to send.
abbrev pub after_relay : Option Packet → ℕ → Room → ℕ → Connections → Option Connection
after_relay none from room j cs = lookup j cs
after_relay (some out) from room j cs =
    if reached j from room.participants then received (encode out) (lookup j cs) else lookup j cs

forward_lem :
    (room : Room) (from ip j : ℕ) (packet : Packet) (cs : Connections)
    → IsMap room.participants
    → lookup j (forward room from ip packet cs) ≡ after_relay (relayed ip packet) from room j cs
unfolding forward broadcast outbound_type relayed
forward_lem room from ip j packet cs m = ground (
  arith,
  by (record packet { type = text_recv; ip = ip }),
  by (record packet { type = audio_recv; ip = ip }),
  by (record packet { type = img_recv; ip = ip }),
  by (record { type = close_camera; ip = ip; payload = [] }),
)
  where
    by :
        (out : Packet)
        → lookup j (broadcast_to room.participants from (encode out) cs) ≡ (
            if reached j from room.participants
            then received (encode out) (lookup j cs)
            else lookup j cs)
    by out = lookup-broadcast_to j from (encode out) room.participants cs m

-- In a room whose participants stand once each, a member's packet reaches each other member once,
-- under the receivers' type and the member's own address; every other connection, the member's
-- among them, is left as it was. A packet from a connection that is no member, or to a closed
-- room, or of a type that is not passed on, changes no connection.
pub handle_packet_lem :
    (room : Room) (from j : ℕ) (packet : Packet) (cs : Connections)
    → IsMap room.participants
    → lookup j (handle_packet room from packet cs) ≡ (elim (lookup from room.participants) [
      | none ↦ lookup j cs
      | some p ↦
          if room.closed
          then lookup j cs
          else after_relay (relayed p.ip_network packet) from room j cs
    ])
unfolding handle_packet
handle_packet_lem room from j packet cs m = elim (Option-cases (lookup from room.participants)) [
  | inl e ↦ rw (e, handle_packet) (ground arith)
  | inr (p, e) ↦
      rw (e, handle_packet) (ground (arith, forward_lem room from p.ip_network j packet cs m))
]
