-- ===== src/Client/Meeting/Invariant.antt =====
-- client/src/widget/meeting/meeting_widget.cpp: what every slot of the window keeps.
use cloud_meeting_client.Client.Message.{Message}
use cloud_meeting_client.Prelude.{false, true, ℕ, arith, ◌∷◌, Bytes, Bool, List, [], if◌then◌else◌}
use cloud_meeting_client.Client.Meeting.{
  ◌>>◌, MeetingWidget, video_off_text, emit, send_close_camera_call, skip, clear_pending_images,
}
use cloud_meeting_client.Client.Meeting.Partners.{close_img, update_meeting_info}
use cloud_meeting_client.Client.Meeting.Messages.{
  on_request_message_slot, on_user_info_message_slot, on_video_message_slot,
}
use cloud_meeting_client.Client.Meeting.Chat.{
  on_text_message_slot, on_send_msg_clicked_slot, handle_text_recv, deal_message_time, deal_message,
  on_create_meet_btn_clicked_slot, on_open_vedio_clicked_slot, on_open_audio_clicked_slot,
  on_join_meet_btn_slot, on_local_frame_captured_slot, toggle_audio,
}
use cloud_meeting_client.Client.Meeting.Events.{
  network_disconnected, timeout, closed, disconnect_clicked, create_clicked, video_clicked,
  audio_clicked, handle, handle_all, Outside, Event, connect_requested, connect_finished,
  request_message, user_info_message, video_message, text_message, send_clicked, join_clicked,
  frame_captured, ip_selected,
}
use cloud_meeting_client.Client.Meeting.Consistency.{
  Keeps, request-Keeps, IsConsistent, keep_if, close_img-Keeps, on_connect_finished-Keeps,
  on_network_disconnected-Keeps, on_timeout-Keeps, close_event-Keeps, on_disconnect_server-Keeps,
  request_message-Keeps, user_info_message-Keeps, video_message-Keeps, on_recv_ip-Keeps,
}

module _ (Image : Type 0) where
  text_message-Keeps :
      (show_address : ℕ → Bytes) (local_ip cur_time : ℕ) (msg : Message Image)
      → Keeps Image (on_text_message_slot show_address local_ip cur_time msg)
  unfolding on_text_message_slot handle_text_recv deal_message_time deal_message
  text_message-Keeps show_address local_ip cur_time msg w h = ground arith

  send_clicked-Keeps :
      (local_ip cur_time : ℕ) (text : Bytes)
      → Keeps Image (on_send_msg_clicked_slot local_ip cur_time text)
  unfolding on_send_msg_clicked_slot deal_message_time deal_message
  send_clicked-Keeps local_ip cur_time text w h = ground arith

  create_clicked-Keeps : Keeps Image on_create_meet_btn_clicked_slot
  unfolding on_create_meet_btn_clicked_slot
  create_clicked-Keeps w h = ground arith

  video_clicked-Keeps :
      (running : Bool) (local_ip : ℕ) → Keeps Image (on_open_vedio_clicked_slot running local_ip)
  unfolding on_open_vedio_clicked_slot close_img
  video_clicked-Keeps true local_ip w h =
      keep_if Image w.has_network (emit send_close_camera_call >> close_img local_ip) skip
        (close_img-Keeps Image local_ip) (λ v k. k)
        (record ((if w.has_network then emit clear_pending_images else skip) w).0 {
          open_vedio_label = video_off_text;
        })
        (keep_if Image w.has_network (emit clear_pending_images) skip (λ v k. k) (λ v k. k) w h)
  video_clicked-Keeps false local_ip w h = h

  audio_clicked-Keeps : Keeps Image on_open_audio_clicked_slot
  unfolding on_open_audio_clicked_slot toggle_audio
  audio_clicked-Keeps w h = ground arith

  join_clicked-Keeps :
      (to_int : Bytes → ℕ) (local_ip : ℕ) (room_no : Bytes)
      → Keeps Image (on_join_meet_btn_slot to_int local_ip room_no)
  unfolding on_join_meet_btn_slot update_meeting_info
  join_clicked-Keeps to_int local_ip room_no w h = ground arith

  frame_captured-Keeps :
      (running : Bool) (image : Image) → Keeps Image (on_local_frame_captured_slot running image)
  unfolding on_local_frame_captured_slot
  frame_captured-Keeps running image w h = ground arith

  -- Every slot of the window keeps it consistent.
  pub handle-IsConsistent :
      (outside : Outside) (event : Event Image) (w : MeetingWidget)
      → IsConsistent w
      → IsConsistent (handle outside event w).0
  unfolding handle on_request_message_slot on_user_info_message_slot on_video_message_slot
  handle-IsConsistent o (connect_requested request) = request-Keeps Image request
  handle-IsConsistent o (connect_finished good request) =
      on_connect_finished-Keeps Image o.to_int o.local_ip good request
  handle-IsConsistent o network_disconnected = on_network_disconnected-Keeps Image o.local_ip
  handle-IsConsistent o timeout = on_timeout-Keeps Image o.local_ip
  handle-IsConsistent o closed = close_event-Keeps Image o.local_ip
  handle-IsConsistent o disconnect_clicked = on_disconnect_server-Keeps Image o.local_ip
  handle-IsConsistent o (request_message msg) = request_message-Keeps Image o.local_ip msg.content
  handle-IsConsistent o (user_info_message msg) =
      user_info_message-Keeps Image o.local_ip msg.ip msg.content
  handle-IsConsistent o (video_message msg) = video_message-Keeps Image msg.ip msg.content
  handle-IsConsistent o (text_message msg) =
      text_message-Keeps o.show_address o.local_ip o.cur_time msg
  handle-IsConsistent o (send_clicked text) = send_clicked-Keeps o.local_ip o.cur_time text
  handle-IsConsistent o create_clicked = create_clicked-Keeps
  handle-IsConsistent o video_clicked = video_clicked-Keeps o.camera_running o.local_ip
  handle-IsConsistent o audio_clicked = audio_clicked-Keeps
  handle-IsConsistent o (join_clicked room_no) = join_clicked-Keeps o.to_int o.local_ip room_no
  handle-IsConsistent o (frame_captured image) = frame_captured-Keeps o.camera_running image
  handle-IsConsistent o (ip_selected ip) = on_recv_ip-Keeps Image ip

  -- After any events the window, consistent before, has its network and its members at different
  -- addresses, has no session both open and ending, and defers a request to connect only while a
  -- session ends.
  pub handle_all-IsConsistent :
      (outside : Outside) (events : List (Event Image)) (w : MeetingWidget)
      → IsConsistent w
      → IsConsistent (handle_all outside events w).0
  unfolding handle_all
  handle_all-IsConsistent o [] w h = h
  handle_all-IsConsistent o (e ∷ es) w h =
      handle_all-IsConsistent o es (handle o e w).0 (handle-IsConsistent o e w h)
