-- ===== src/Server/Service/Opens.antt =====
-- meeting_service.cpp and room.cpp in server/src: how many connections are not closed.
use cloud_meeting_client.Server.Connection.{Connection, send, do_write}
use cloud_meeting_client.Server.Room.{Connections, Participant, receive, deliver, broadcast_to}
use cloud_meeting_client.Server.Service.{World}
use cloud_meeting_client.Prelude.{
  Map, lookup, ◌≡◌, arith, length, ◌∙◌, ◌+◌, refl, ◌≤◌, if◌then◌else◌, Bytes, Option-cases, inr, ℕ,
  put, [], inl, some, ◌∷◌, ◌==◌,
}

-- How many connections are not closed.
unfoldable pub count_open : Connections → ℕ
count_open [] = 0
count_open ((id, c) ∷ cs) = (if c.closed then 0 else 1) + count_open cs

abbrev pub opens : World → ℕ
opens w = count_open w.connections

abbrev pub weight : Connection → ℕ
weight c = if c.closed then 0 else 1

pub count_open-put :
    (id : ℕ) (c d : Connection) (cs : Connections)
    → lookup id cs ≡ some c
    → count_open (put id d cs) + weight c ≡ count_open cs + weight d
unfolding count_open
count_open-put id c d [] e = cc
count_open-put id c d ((j, x) ∷ cs) e = ground (arith, count_open-put id c d cs)

pub count_open-le : (cs : Connections) → count_open cs ≤ length cs
unfolding count_open
count_open-le [] = omega arith
count_open-le ((id, c) ∷ cs) = ground (arith, count_open-le cs)

pub closed-receive : (d : Bytes) (c : Connection) → (receive d c).closed ≡ c.closed
unfolding receive send do_write
closed-receive d c = ground arith

pub count_open-deliver :
    (id : ℕ) (d : Bytes) (cs : Connections) → count_open (deliver id d cs) ≡ count_open cs
unfolding deliver
count_open-deliver id d cs = elim (Option-cases (lookup id cs)) [
  | inl e ↦ rw (e, deliver)
  | inr (c, e) ↦
      rw (e, deliver) (ground (arith, count_open-put id c (receive d c) cs e, closed-receive d c))
]

pub count_open-broadcast_to :
    (ps : Map Participant) (exclude : ℕ) (d : Bytes) (cs : Connections)
    → count_open (broadcast_to ps exclude d cs) ≡ count_open cs
unfolding broadcast_to
count_open-broadcast_to [] exclude d cs = refl
count_open-broadcast_to ((id, p) ∷ ps) exclude d cs =
    count_open-broadcast_to ps exclude d (if id == exclude then cs else deliver id d cs)
    ∙ ground (arith, count_open-deliver id d cs)
