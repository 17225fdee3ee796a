-- ===== src/Client/Link/Reading.antt =====
-- client/src/network/messageNet/connection.cpp: what the hub is given of a stream that is read in pieces.
use cloud_meeting_client.Prelude.{
  ◌∷◌, ap, ◌≡◌, ◌+◌, ◌≤◌, concat, Bool, sym, refl, length, [], true, ◌∙◌, ◌++◌, List, Bytes, some,
  none, Option,
}
use cloud_meeting_client.Client.Codec.{Qt, feed, max_buffer, cons_some}
use cloud_meeting_client.Client.Link.{Network, on_ready_read, route_all}
use cloud_meeting_client.Client.Message.{Message}
use cloud_meeting_client.Client.Hub.{MessageHub, route_incoming}
use cloud_meeting_client.Client.Codec.Feeding.{feed_all, feed_all-concat}

module _ (qt : Qt) (locked : Bool) where
  open qt use {Image}

  -- One read after the other.
  unfoldable pub read_all : List Bytes → Network Image → Network Image × List (Message Image)
  read_all [] net = (net, [])
  read_all (chunk ∷ chunks) net =
      let (next, posted) = on_ready_read qt locked chunk net in
      let (last, more) = read_all chunks next in (last, posted ++ more)

  -- What follows from what the parser gives.
  abbrev delivered :
      List (Message Image) × Bytes → Network Image → Network Image × List (Message Image)
  delivered out net =
      let (hub, posted) = route_all qt locked out.0 net.hub in
      (record { connection = record net.connection { parser = out.1 }; hub = hub }, posted)

  one_read :
      (chunk : Bytes) (net : Network Image)
      → net.connection.socket ≡ true
      → on_ready_read qt locked chunk net ≡ delivered (feed qt net.connection.parser chunk) net
  unfolding on_ready_read feed route_all
  one_read [] net s = rw s refl
  one_read (x ∷ chunk) net s = rw s refl

  cons_some-append :
      (p : Option (Message Image)) (a b : List (Message Image))
      → cons_some p (a ++ b) ≡ cons_some p a ++ b
  cons_some-append none a b = refl
  cons_some-append (some m) a b = refl

  route_all-append :
      (ms ns : List (Message Image)) (hub : MessageHub Image)
      → route_all qt locked (ms ++ ns) hub ≡ (
          let (next, posted) = route_all qt locked ms hub in
          let (last, more) = route_all qt locked ns next in (last, posted ++ more))
  unfolding route_all
  route_all-append [] ns hub = refl
  route_all-append (m ∷ ms) ns hub =
      let (next, posted) = route_incoming locked m hub in
      rw (route_all-append ms ns next) (
        ap (λ out. ((route_all qt locked ns (route_all qt locked ms next).0).0, out))
          (cons_some-append posted (route_all qt locked ms next).1
            (route_all qt locked ns (route_all qt locked ms next).0).1))

  all_reads :
      (chunks : List Bytes) (net : Network Image)
      → net.connection.socket ≡ true
      → read_all chunks net ≡ delivered (feed_all qt net.connection.parser chunks) net
  unfolding read_all route_all
  all_reads [] net s = refl
  all_reads (chunk ∷ chunks) net s =
      let one = feed qt net.connection.parser chunk in
      let next = (delivered one net).0 in
      rw
        (
          one_read chunk net s,
          all_reads chunks next s,
          route_all-append one.0 (feed_all qt one.1 chunks).0 net.hub,
        )
        refl

  -- However the bytes from the server are cut into reads, the connection, which has a socket, and the hub
  -- end in the same state, and the same messages are emitted in the same order, as after one read
  -- of all bytes, when the parser's buffer and the bytes are at most 4 MiB together.
  pub read_all-concat :
      (chunks : List Bytes) (net : Network Image)
      → net.connection.socket ≡ true
      → length net.connection.parser + length (concat chunks) ≤ max_buffer
      → read_all chunks net ≡ on_ready_read qt locked (concat chunks) net
  read_all-concat chunks net s h =
      all_reads chunks net s
      ∙ ap (λ out. delivered out net) (feed_all-concat qt chunks net.connection.parser h)
      ∙ sym (one_read (concat chunks) net s)
