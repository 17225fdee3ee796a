-- ===== src/Client/Link.antt =====
-- client/src/network/messageNet/connection.cpp and networkmanager.cpp: the connection to the server and
-- the network as the window sees it. A socket is a parameter: how an attempt to connect ends, what
-- it reads, and what each of its writes returns. Calls to another thread are done in their order.
pub mod Reading
pub mod Writing
use cloud_meeting_client.Prelude.{
  some, not, take, none, ◌++◌, false, if◌then◌else◌, Bool, ◌-◌, ◌^◌, ℕ, Option, ◌∷◌, drop, ◌||◌,
  true, ◌==◌, [], List, Bytes,
}
use cloud_meeting_client.Client.Hub.{
  MessageHub, clear_queues, stop_send_worker, signal_send_stop, enqueue_send, route_incoming,
  start_send_worker,
}
use cloud_meeting_client.Client.Codec.{Qt, feed, cons_some}
use cloud_meeting_client.Client.Message.{
  Message, message, remote_host_closed_error_message, create_meeting_message, join_meeting_message,
  send_text_message, close_camera_message, send_image_message, send_audio_message,
  other_net_error_message,
}
use cloud_meeting_client.Server.Connection.{is_empty}

-- `socket` is whether there is one. The parser's buffer is `parser`.
pub record Connection : Type 0 where
  pub socket : Bool
  pub parser : Bytes
  pub has_local_ip : Bool
  pub local_ip : ℕ

-- How an attempt to connect ends: with the address of this end, or not within five seconds.
pub data Attempt : Type 0 where
  connected_at : ℕ → Attempt
  refused : Attempt

-- What a write returns: the bytes it took, an error that passes, or another.
pub data WriteResult : Type 0 where
  wrote : ℕ → WriteResult
  temporary_error write_error : WriteResult

pub data SocketError : Type 0 where
  remote_host_closed other_error : SocketError

-- The connection, the hub with the locks it gets, and whether `disconnected` is emitted.
pub record Network (Image : Type 0) : Type 0 where
  pub connection : Connection
  pub hub : MessageHub Image

unfoldable pub destroy_socket : Connection → Connection
destroy_socket c = record c { parser = []; socket = false }

-- `UINT32_MAX` while it is not known.
unfoldable pub connection_local_ip : Connection → ℕ
connection_local_ip c = if c.has_local_ip then c.local_ip else 2 ^ 32 - 1

-- The loop of `sendWireData` over what the writes return, with the bytes of the frame that are left: the
-- result, and the bytes that the socket took; no result while the list of returns ends first.
unfoldable pub write_loop : List WriteResult → Bytes → Option Bool × Bytes
write_loop returns [] = (some true, [])
write_loop [] (x ∷ left) = (none, [])
write_loop (wrote n ∷ returns) (x ∷ left) =
    let (result, more) = write_loop returns (drop n (x ∷ left)) in
    if n == 0 then (some true, []) else (result, take n (x ∷ left) ++ more)
write_loop (temporary_error ∷ returns) (x ∷ left) = write_loop returns (x ∷ left)
write_loop (write_error ∷ returns) (x ∷ left) = (some false, [])

-- `unconnected` is whether the socket's state is that.
unfoldable pub send_wire_data : Bool → List WriteResult → Bytes → Connection → Option Bool × Bytes
send_wire_data unconnected returns frame c =
    if not c.socket || unconnected then (some false, []) else write_loop returns frame

-- `Connection::disconnectFromHost`, on the caller's thread.
unfoldable pub disconnect_connection : Connection → Connection
disconnect_connection c = record c { has_local_ip = false; local_ip = 0 }

module _ (qt : Qt) where
  open qt use {Image}

  -- The messages that were parsed go to the hub, in their order: the hub, and what it is to emit.
  unfoldable pub route_all :
      Bool → List (Message Image) → MessageHub Image → MessageHub Image × List (Message Image)
  route_all locked [] hub = (hub, [])
  route_all locked (m ∷ ms) hub =
      let (next, posted) = route_incoming locked m hub in
      let (last, more) = route_all locked ms next in (last, cons_some posted more)

  unfoldable pub on_ready_read : Bool → Bytes → Network Image → Network Image × List (Message Image)
  on_ready_read locked chunk net =
      if not net.connection.socket || is_empty chunk
      then (net, [])
      else let (packets, rest) = feed qt net.connection.parser chunk in
        let (hub, posted) = route_all locked packets net.hub in
        (record { connection = record net.connection { parser = rest }; hub = hub }, posted)

  unfoldable pub on_socket_error :
      Bool → SocketError → MessageHub Image → MessageHub Image × Option (Message Image)
  on_socket_error locked remote_host_closed hub =
      route_incoming locked (message remote_host_closed_error_message) hub
  on_socket_error locked other_error hub =
      route_incoming locked (message other_net_error_message) hub

  unfoldable pub connect_on_io_thread : Bool → Bool → Attempt → Network Image → Bool × Network Image
  connect_on_io_thread send_locked audio_locked attempt net =
      let fresh = destroy_socket net.connection in
      let hub = clear_queues send_locked audio_locked net.hub in
      elim attempt [
        | refused ↦ (false, record { connection = fresh; hub = hub })
        | connected_at ip ↦ (
          true,
          record {
            connection = record fresh { socket = true; local_ip = ip; has_local_ip = true };
            hub = hub;
          },
        )
      ]

  unfoldable pub disconnect_on_io_thread : Bool → Bool → Network Image → Network Image
  disconnect_on_io_thread send_locked audio_locked net = record {
    connection = destroy_socket net.connection;
    hub = clear_queues send_locked audio_locked net.hub;
  }

  -- `NetworkManager`, without a widget for which the address is validated first.
  unfoldable pub connect_to_server : Bool → Bool → Attempt → Network Image → Bool × Network Image
  connect_to_server send_locked audio_locked attempt net =
      let (good, after) =
        connect_on_io_thread send_locked audio_locked attempt
          (record net { hub = stop_send_worker net.hub }) in
      (good, if good then record after { hub = start_send_worker after.hub } else after)

  -- What the caller's thread does; `disconnect_on_io_thread` follows on the other.
  unfoldable pub disconnect_from_host : Network Image → Network Image
  disconnect_from_host net = record {
    connection = disconnect_connection net.connection;
    hub = signal_send_stop net.hub;
  }

  -- The slot for `disconnected` of the connection.
  unfoldable pub on_disconnected : Network Image → Network Image
  on_disconnected net = record net { hub = signal_send_stop net.hub }

  unfoldable pub send_create_meeting : Bool → MessageHub Image → MessageHub Image
  send_create_meeting locked = enqueue_send locked (some (message create_meeting_message))

  unfoldable pub send_join_meeting : Bool → Bytes → MessageHub Image → MessageHub Image
  send_join_meeting locked room_no =
      enqueue_send locked (some (message (join_meeting_message room_no)))

  unfoldable pub send_text : Bool → Bytes → MessageHub Image → MessageHub Image
  send_text locked text = enqueue_send locked (some (message (send_text_message text)))

  unfoldable pub send_close_camera : Bool → MessageHub Image → MessageHub Image
  send_close_camera locked = enqueue_send locked (some (message close_camera_message))

  -- `none` is an image that is null.
  unfoldable pub send_image : Bool → Option Image → MessageHub Image → MessageHub Image
  send_image locked none hub = hub
  send_image locked (some image) hub =
      enqueue_send locked (some (message (send_image_message image))) hub

  unfoldable pub send_audio : Bool → Bytes → MessageHub Image → MessageHub Image
  send_audio locked pcm hub =
      if is_empty pcm
      then hub
      else enqueue_send locked (some (message (send_audio_message pcm))) hub
