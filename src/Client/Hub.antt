-- ===== src/Client/Hub.antt =====
-- client/src/network/messageNet/messagehub.cpp: the hub. The calls of the queues are told whether they
-- got their locks. Starting and ending a thread leaves its worker in Hub/Worker.
pub mod Worker
pub mod Epochs
pub mod Draining
use cloud_meeting_client.Client.Message.{
  remote_host_closed_error_message, other_net_error_message, partner_join_message,
  partner_exit_message, close_camera_notify_message, Content, Message,
  create_meeting_response_message, join_meeting_response_message, partner_join2_message,
  recv_text_message, recv_image_message, recv_audio_message,
}
use cloud_meeting_client.Prelude.{Option, false, Bool, none, ◌+◌, ℕ, ◌^◌, some, true, ◌%◌}
use cloud_meeting_client.Client.Queues.{
  PriorityQueue, MessageQueue, clear_video, clear, push, enqueue, clear_all, dequeue,
}

pub record MessageHub (Image : Type 0) : Type 0 where
  pub send_queue : PriorityQueue Image
  pub recv_audio_queue : MessageQueue Image
  pub has_connection : Bool
  pub send_running : Bool
  pub send_epoch : ℕ

-- The signal that a message is emitted with, the queue of received audio, or none of these.
pub data Channel : Type 0 where
  request_message_ready user_info_message_ready text_message_ready : Channel
  video_message_ready recv_audio unhandled : Channel

module _ {Image : Type 0} where
  unfoldable pub enqueue_send : Bool → Option (Message Image) → MessageHub Image → MessageHub Image
  enqueue_send locked msg hub = record hub { send_queue = push locked msg hub.send_queue }

  -- The switch of `emit_incoming`.
  unfoldable pub channel_of : Content Image → Channel
  channel_of (create_meeting_response_message room_no) = request_message_ready
  channel_of (join_meeting_response_message code) = request_message_ready
  channel_of remote_host_closed_error_message = request_message_ready
  channel_of other_net_error_message = request_message_ready
  channel_of partner_join_message = user_info_message_ready
  channel_of partner_exit_message = user_info_message_ready
  channel_of (partner_join2_message ips) = user_info_message_ready
  channel_of close_camera_notify_message = user_info_message_ready
  channel_of (recv_text_message text) = text_message_ready
  channel_of (recv_image_message image) = video_message_ready
  channel_of (recv_audio_message pcm) = recv_audio
  channel_of _ = unhandled

  -- A message that was taken for audio is queued at once; any other is posted to the hub's thread, which
  -- emits it: the hub, and the message to emit.
  unfoldable pub route_incoming :
      Bool → Message Image → MessageHub Image → MessageHub Image × Option (Message Image)
  route_incoming locked msg hub = elim (channel_of msg.content) [
    | recv_audio ↦
        (record hub { recv_audio_queue = enqueue locked (some msg) hub.recv_audio_queue }, none)
    | _ ↦ (hub, some msg)
  ]

  -- `emit_incoming`: with which signal, and the hub after it.
  unfoldable pub emit_incoming :
      Bool → Message Image → MessageHub Image → Channel × MessageHub Image
  emit_incoming locked msg hub = elim (channel_of msg.content) [
    | recv_audio ↦ (
      recv_audio,
      record hub { recv_audio_queue = enqueue locked (some msg) hub.recv_audio_queue },
    )
    | channel ↦ (channel, hub)
  ]

  unfoldable pub clear_pending_video : Bool → MessageHub Image → MessageHub Image
  clear_pending_video locked hub = record hub { send_queue = clear_video locked hub.send_queue }

  unfoldable pub clear_queues : Bool → Bool → MessageHub Image → MessageHub Image
  clear_queues send_locked audio_locked hub = record hub {
    send_queue = clear send_locked hub.send_queue;
    recv_audio_queue = clear_all audio_locked hub.recv_audio_queue;
  }

  unfoldable pub pop_recv_audio : MessageHub Image → Option (Message Image) × MessageHub Image
  pop_recv_audio hub =
      let (msg, queue) = dequeue hub.recv_audio_queue in
      (msg, record hub { recv_audio_queue = queue })

  -- `fetch_add` on 64 bits.
  unfoldable pub signal_send_stop : MessageHub Image → MessageHub Image
  signal_send_stop hub = record hub {
    send_running = false;
    send_epoch = (hub.send_epoch + 1) % 2 ^ 64;
  }

  -- The epoch of the new worker is the hub's.
  unfoldable pub start_send_worker : MessageHub Image → MessageHub Image
  start_send_worker hub =
      let stopped = signal_send_stop hub in
      record stopped { send_epoch = (stopped.send_epoch + 1) % 2 ^ 64; send_running = true }

  unfoldable pub stop_send_worker : MessageHub Image → MessageHub Image
  stop_send_worker hub = signal_send_stop hub

  unfoldable pub start : Bool → MessageHub Image → MessageHub Image
  start has_connection hub = record hub { has_connection = has_connection }

  unfoldable pub stop : MessageHub Image → MessageHub Image
  stop hub = record (stop_send_worker hub) { has_connection = false }
