-- ===== src/Client/Meeting/Events.antt =====
-- client/src/widget/meeting/meeting_widget.cpp: the slots of the window as events, one after the
-- other, as the event loop of the window's thread runs them.
use cloud_meeting_client.Client.Message.{Message}
use cloud_meeting_client.Client.Meeting.{ConnectRequest, Slot, skip, ◌>>◌}
use cloud_meeting_client.Prelude.{ℕ, [], List, ◌∷◌, Bool, Bytes}
use cloud_meeting_client.Client.Meeting.Session.{
  request_connect_to_server_slot, on_connect_finished_slot, on_network_disconnected_slot,
  on_timeout, close_event, on_disconnect_server_slot,
}
use cloud_meeting_client.Client.Meeting.Messages.{
  on_request_message_slot, on_user_info_message_slot, on_video_message_slot,
}
use cloud_meeting_client.Client.Meeting.Chat.{
  on_text_message_slot, on_send_msg_clicked_slot, on_create_meet_btn_clicked_slot,
  on_open_vedio_clicked_slot, on_open_audio_clicked_slot, on_join_meet_btn_slot,
  on_local_frame_captured_slot,
}
use cloud_meeting_client.Client.Meeting.Partners.{on_recv_ip_slot}

-- What the window reads from others: the local address, whether the camera runs, `toInt`, `toString`
-- of an address, and the time.
pub record Outside : Type 0 where
  pub local_ip : ℕ
  pub camera_running : Bool
  pub to_int : Bytes → ℕ
  pub show_address : ℕ → Bytes
  pub cur_time : ℕ

pub data Event (Image : Type 0) : Type 0 where
  connect_requested : ConnectRequest → Event Image
  connect_finished : Bool → ConnectRequest → Event Image
  network_disconnected timeout closed disconnect_clicked : Event Image
  request_message user_info_message video_message text_message : Message Image → Event Image
  send_clicked : Bytes → Event Image
  create_clicked video_clicked audio_clicked : Event Image
  join_clicked : Bytes → Event Image
  frame_captured : Image → Event Image
  ip_selected : ℕ → Event Image

module _ {Image : Type 0} (outside : Outside) where
  unfoldable pub handle : Event Image → Slot Image
  handle (connect_requested request) = request_connect_to_server_slot request
  handle (connect_finished ok request) =
      on_connect_finished_slot outside.to_int outside.local_ip ok request
  handle network_disconnected = on_network_disconnected_slot outside.local_ip
  handle timeout = on_timeout outside.local_ip
  handle closed = close_event outside.local_ip
  handle disconnect_clicked = on_disconnect_server_slot outside.local_ip
  handle (request_message msg) = on_request_message_slot outside.local_ip msg
  handle (user_info_message msg) = on_user_info_message_slot outside.local_ip msg
  handle (video_message msg) = on_video_message_slot msg
  handle (text_message msg) =
      on_text_message_slot outside.show_address outside.local_ip outside.cur_time msg
  handle (send_clicked text) = on_send_msg_clicked_slot outside.local_ip outside.cur_time text
  handle create_clicked = on_create_meet_btn_clicked_slot
  handle video_clicked = on_open_vedio_clicked_slot outside.camera_running outside.local_ip
  handle audio_clicked = on_open_audio_clicked_slot
  handle (join_clicked room_no) = on_join_meet_btn_slot outside.to_int outside.local_ip room_no
  handle (frame_captured image) = on_local_frame_captured_slot outside.camera_running image
  handle (ip_selected ip) = on_recv_ip_slot ip

  unfoldable pub handle_all : List (Event Image) → Slot Image
  handle_all [] = skip
  handle_all (e ∷ es) = handle e >> handle_all es
