-- ===== src/Client/System.antt =====
-- client/src/widget/meeting/meeting_controller.cpp: the meeting window, the controller and the network
-- together. An effect of the window that is a call of the network or a signal to the controller is
-- performed at once; the events that it leads to wait until those before them are handled. What the
-- other threads do meanwhile is an argument: which locks of the queues are got in time, and the
-- message that a superseded worker for sending puts back. The messages that a worker takes to send
-- them (Hub/Worker) and those that the connection reads (Link) are not among these steps.
pub mod Closing
use cloud_meeting_client.Client.Meeting.{
  send_close_camera_call, disconnect_call, start_timer, create_meeting_requested,
  clear_pending_images, MeetingWidget, ConnectRequest, Effect, request_connect,
  join_meeting_requested, send_text_call, send_image_call,
}
use cloud_meeting_client.Prelude.{
  suc, zero, ◌∷◌, ◌++◌, ℕ, [], some, List, true, Option, if◌then◌else◌, Bool, none,
}
use cloud_meeting_client.Client.Codec.{Qt}
use cloud_meeting_client.Client.Link.{
  send_image, send_text, disconnect_from_host, Network, Attempt, connect_to_server, on_disconnected,
  connection_local_ip, disconnect_on_io_thread, send_create_meeting, send_join_meeting,
  send_close_camera,
}
use cloud_meeting_client.Client.Meeting.Events.{
  Outside, Event, connect_finished, timeout, handle, network_disconnected,
}
use cloud_meeting_client.Client.Hub.{MessageHub, clear_pending_video, enqueue_send}
use cloud_meeting_client.Client.Message.{Message, kind}
use cloud_meeting_client.Client.Hub.Worker.{is_returned}

pub record Client (Image : Type 0) : Type 0 where
  pub window : MeetingWidget
  pub network : Network Image

-- While an effect is performed: whether the locks of the queue for sending and of the received audio are
-- got in time, and the message that a superseded worker has in hand and gets the lock to put back, where
-- there is one.
pub record Threads (Image : Type 0) : Type 0 where
  pub send_locked : Bool
  pub audio_locked : Bool
  pub in_hand : Option (Message Image)

-- What a superseded worker does with the message that it has in hand.
unfoldable pub put_back : {Image : Type 0} → Threads Image → MessageHub Image → MessageHub Image
put_back t hub = elim t.in_hand [
  | none ↦ hub
  | some m ↦ if is_returned (kind m) then enqueue_send true (some m) hub else hub
]

module _ (qt : Qt) (attempt : ConnectRequest → Attempt) (outside : Outside) where
  open qt use {Image}

  -- `MeetingController::connect_to_server_slot`; the worker before is superseded.
  unfoldable pub connect_to_server_slot :
      Threads Image → ConnectRequest → Network Image → Network Image × List (Event Image)
  connect_to_server_slot t request net =
      let (good, after) = connect_to_server qt t.send_locked t.audio_locked (attempt request) net in
      (record after { hub = put_back t after.hub }, connect_finished good request ∷ [])

  -- `MeetingController::disconnect_from_host_slot`, what follows on the thread of the connection, what
  -- the worker, which is superseded, puts back after it, and the signal for its end.
  unfoldable pub disconnect_from_host_slot :
      Threads Image → Network Image → Network Image × List (Event Image)
  disconnect_from_host_slot t net =
      let after =
        disconnect_on_io_thread qt t.send_locked t.audio_locked (disconnect_from_host qt net) in
      (on_disconnected qt (record after { hub = put_back t after.hub }), network_disconnected ∷ [])

  -- A change of the hub, without events.
  abbrev by_hub :
      (MessageHub Image → MessageHub Image) → Network Image → Network Image × List (Event Image)
  by_hub f net = (record net { hub = f net.hub }, [])

  -- The timer goes off once what comes before it is done.
  unfoldable pub perform :
      Threads Image → Effect Image → Network Image → Network Image × List (Event Image)
  perform t (request_connect request) net = connect_to_server_slot t request net
  perform t disconnect_call net = disconnect_from_host_slot t net
  perform t start_timer net = (net, timeout ∷ [])
  perform t create_meeting_requested net = by_hub (send_create_meeting qt t.send_locked) net
  perform t (join_meeting_requested room_no) net =
      by_hub (send_join_meeting qt t.send_locked room_no) net
  perform t (send_text_call text) net = by_hub (send_text qt t.send_locked text) net
  perform t (send_image_call image) net = by_hub (send_image qt t.send_locked (some image)) net
  perform t send_close_camera_call net = by_hub (send_close_camera qt t.send_locked) net
  perform t clear_pending_images net = by_hub (clear_pending_video t.send_locked) net
  perform t _ net = (net, [])

module _ (qt : Qt) (attempt : ConnectRequest → Attempt) (outside : Outside)
    (threads : Effect qt.Image → Threads qt.Image) where
  open qt use {Image}

  unfoldable pub perform_all :
      List (Effect Image) → Network Image → Network Image × List (Event Image)
  perform_all [] net = (net, [])
  perform_all (e ∷ es) net =
      let (next, events) = perform qt attempt outside (threads e) e net in
      let (last, more) = perform_all es next in (last, events ++ more)

  -- One event: the slot, with the address that the connection has, and its effects.
  unfoldable pub step : Event Image → Client Image → Client Image × List (Event Image)
  step event client =
      let ip = connection_local_ip client.network.connection in
      let (window, effects) = handle (record outside { local_ip = ip }) event client.window in
      let (network, events) = perform_all effects client.network in
      (record { window = window; network = network }, events)

  -- A number of events at most: the client, and the events that still wait.
  unfoldable pub run : ℕ → List (Event Image) → Client Image → Client Image × List (Event Image)
  run zero waiting client = (client, waiting)
  run (suc n) [] client = (client, [])
  run (suc n) (event ∷ waiting) client =
      let (next, events) = step event client in run n (waiting ++ events) next
