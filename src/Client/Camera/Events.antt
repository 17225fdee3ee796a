-- ===== src/Client/Camera/Events.antt =====
-- client/src/message/video/cameravideo.cpp and client/src/widget/meeting/meeting_widget.cpp: the
-- labels of the members after the events of the window and the frames of the camera.
use cloud_meeting_client.Client.Camera.{
  CameraVideo, camera_image_capture, call_camera, show_image_for_ip, start_camera, stop_camera,
}
use cloud_meeting_client.Client.Camera.Session.{
  run_calls, Input, window, frame, on_event, on_events, on_input, on_inputs,
}
use cloud_meeting_client.Client.Meeting.{
  MeetingWidget, Slot, modify, emit, skip, ◌>>◌, clear_pending_images, send_close_camera_call,
  video_off_text, ConnectRequest,
}
use cloud_meeting_client.Client.Meeting.Events.{
  network_disconnected, timeout, closed, disconnect_clicked, create_clicked, video_clicked,
  audio_clicked, handle, Outside, Event, connect_requested, connect_finished, request_message,
  user_info_message, video_message, text_message, send_clicked, join_clicked, frame_captured,
  ip_selected,
}
use cloud_meeting_client.Prelude.{
  [], ◌∷◌, arith, Bool, false, if◌then◌else◌, true, none, List, Bytes, ℕ, not, ◌==◌, inl, inr, ◌||◌,
  Bool-cases,
}
use cloud_meeting_client.Client.Camera.Displays.{
  Keeps, keep_then, Keeps-if, end_meeting_session-Keeps, show_image-Shows, close_img-Keeps, Shows,
  request-Keeps, on_network_disconnected-Keeps, on_timeout-Keeps, on_disconnect_server-Keeps,
  on_recv_ip-Keeps,
}
use cloud_meeting_client.Client.Meeting.Session.{
  close_event, on_connect_finished_slot, end_meeting_session, discard_connect, accept_connect,
  refuse_connect, after_connect,
}
use cloud_meeting_client.Client.Meeting.Messages.{
  on_request_message_slot, on_user_info_message_slot, on_video_message_slot,
}
use cloud_meeting_client.Client.Meeting.Partners.{update_meeting_info, close_img}
use cloud_meeting_client.Client.Meeting.Chat.{
  on_text_message_slot, on_send_msg_clicked_slot, on_open_vedio_clicked_slot,
  on_create_meet_btn_clicked_slot, handle_text_recv, deal_message_time, on_open_audio_clicked_slot,
  deal_message, on_join_meet_btn_slot, on_local_frame_captured_slot, toggle_audio,
}
use cloud_meeting_client.Client.Message.{Message}
use cloud_meeting_client.Client.Camera.Messages.{
  request_message-Kept, user_info_message-Kept, video_message-Kept,
}

module _ (Image : Type 0) (is_null : Image → Bool) (j : ℕ) where
  abbrev Kept : Slot Image → Type 0
  Kept = Keeps Image is_null j

  then_Kept : (f g : Slot Image) → Kept f → Kept g → Kept (f >> g)
  then_Kept = keep_then Image is_null j

  if_Kept : (b : Bool) (f g : Slot Image) → Kept f → Kept g → Kept (if b then f else g)
  if_Kept = Keeps-if Image is_null j

  close_event-Kept : (local_ip : ℕ) → Kept (close_event local_ip)
  unfolding close_event run_calls
  close_event-Kept local_ip w c h =
      if_Kept w.session_ending skip
        (modify (λ v. record v { session_ending = true }) >> end_meeting_session local_ip)
        (λ v d k. k)
        (λ v d k.
          end_meeting_session-Keeps Image is_null j local_ip (record v { session_ending = true }) d
            k)
        (record w { is_visible = false; pending_connect = none }) c h

  on_connect_finished-Kept :
      (to_int : Bytes → ℕ) (local_ip : ℕ) (good : Bool) (request : ConnectRequest)
      → Kept (on_connect_finished_slot to_int local_ip good request)
  unfolding on_connect_finished_slot discard_connect accept_connect refuse_connect after_connect
      update_meeting_info run_calls
  on_connect_finished-Kept to_int local_ip good request w c h = ground arith

  text_message-Kept :
      (show_address : ℕ → Bytes) (local_ip cur_time : ℕ) (msg : Message Image)
      → Kept (on_text_message_slot show_address local_ip cur_time msg)
  unfolding on_text_message_slot handle_text_recv deal_message_time deal_message run_calls
  text_message-Kept show_address local_ip cur_time msg w c h = ground arith

  send_clicked-Kept :
      (local_ip cur_time : ℕ) (text : Bytes)
      → Kept (on_send_msg_clicked_slot local_ip cur_time text)
  unfolding on_send_msg_clicked_slot deal_message_time deal_message run_calls
  send_clicked-Kept local_ip cur_time text w c h = ground arith

  abbrev stop_sending : Bool → Slot Image
  stop_sending has_network = if has_network then emit clear_pending_images else skip

  abbrev tell_closed : Bool → ℕ → Slot Image
  tell_closed has_network local_ip =
      modify (λ v. record v { open_vedio_label = video_off_text })
      >> (if has_network then emit send_close_camera_call >> close_img local_ip else skip)

  tell_closed-Kept : (has_network : Bool) (local_ip : ℕ) → Kept (tell_closed has_network local_ip)
  unfolding run_calls
  tell_closed-Kept true local_ip v =
      close_img-Keeps Image is_null j local_ip (record v { open_vedio_label = video_off_text })
  tell_closed-Kept false local_ip v = λ d k. k

  video_clicked-Kept :
      (running : Bool) (local_ip : ℕ) → Kept (on_open_vedio_clicked_slot running local_ip)
  unfolding on_open_vedio_clicked_slot run_calls call_camera start_camera stop_camera
  video_clicked-Kept true local_ip w c h =
      then_Kept (stop_sending w.has_network) (tell_closed w.has_network local_ip)
        (if_Kept w.has_network (emit clear_pending_images) skip (λ v d k. k) (λ v d k. k))
        (tell_closed-Kept w.has_network local_ip) w (record c { is_running = false }) h
  video_clicked-Kept false local_ip w c h = ground arith

  buttons-Kept :
      (o : Outside) (room_no : Bytes)
      → Kept on_create_meet_btn_clicked_slot
        × Kept on_open_audio_clicked_slot
        × Kept (on_join_meet_btn_slot o.to_int o.local_ip room_no)
  unfolding on_create_meet_btn_clicked_slot on_open_audio_clicked_slot on_join_meet_btn_slot
      toggle_audio update_meeting_info run_calls
  buttons-Kept o room_no = ((λ w c h. ground arith), (λ w c h. ground arith), λ w c h. ground arith)

  frame_captured-Kept :
      (running : Bool) (image : Image) → Kept (on_local_frame_captured_slot running image)
  unfolding on_local_frame_captured_slot run_calls
  frame_captured-Kept running image w c h = ground arith

  handle-Kept : (outside : Outside) (event : Event Image) → Kept (handle outside event)
  unfolding handle on_request_message_slot on_user_info_message_slot on_video_message_slot
  handle-Kept o (connect_requested request) = request-Keeps Image is_null j request
  handle-Kept o (connect_finished good request) =
      on_connect_finished-Kept o.to_int o.local_ip good request
  handle-Kept o network_disconnected = on_network_disconnected-Keeps Image is_null j o.local_ip
  handle-Kept o timeout = on_timeout-Keeps Image is_null j o.local_ip
  handle-Kept o closed = close_event-Kept o.local_ip
  handle-Kept o disconnect_clicked = on_disconnect_server-Keeps Image is_null j o.local_ip
  handle-Kept o (request_message msg) = request_message-Kept Image is_null j o.local_ip msg.content
  handle-Kept o (user_info_message msg) =
      user_info_message-Kept Image is_null j o.local_ip msg.ip msg.content
  handle-Kept o (video_message msg) = video_message-Kept Image is_null j msg.ip msg.content
  handle-Kept o (text_message msg) = text_message-Kept o.show_address o.local_ip o.cur_time msg
  handle-Kept o (send_clicked text) = send_clicked-Kept o.local_ip o.cur_time text
  handle-Kept o create_clicked = (buttons-Kept o []).0
  handle-Kept o video_clicked = video_clicked-Kept o.camera_running o.local_ip
  handle-Kept o audio_clicked = (buttons-Kept o []).1
  handle-Kept o (join_clicked room_no) = (buttons-Kept o room_no).2
  handle-Kept o (frame_captured image) = frame_captured-Kept o.camera_running image
  handle-Kept o (ip_selected ip) = on_recv_ip-Keeps Image is_null j ip

  on_event-Shows :
      (outside : Outside) (e : Event Image) (s : MeetingWidget × CameraVideo Image)
      → Shows Image is_null j s.0 s.1
      → Shows Image is_null j (on_event is_null outside e s).0 (on_event is_null outside e s).1
  unfolding on_event
  on_event-Shows outside e (w, c) =
      handle-Kept (record outside { camera_running = c.is_running }) e w c

  on_input-Shows :
      (outside : Outside) (e : Input Image) (s : MeetingWidget × CameraVideo Image)
      → Shows Image is_null j s.0 s.1
      → Shows Image is_null j (on_input is_null outside e s).0 (on_input is_null outside e s).1
  unfolding on_input on_events camera_image_capture
  on_input-Shows outside (window e) s h = on_event-Shows outside e s h
  on_input-Shows outside (frame is_valid image) (w, c) h =
      elim (Bool-cases (not is_valid || c.local_ip == 0 || is_null image)) [
        | inl e ↦ rw e h
        | inr e ↦ rw e (
            on_event-Shows outside (frame_captured image)
              (w, show_image_for_ip is_null c.local_ip image c)
              (show_image-Shows Image is_null j c.local_ip image w c h))
      ]

  -- After any events of the window and frames of the camera, the labels of the members are those of
  -- the members that the window has, and each shows the member's last image, or the avatar where
  -- there is none; and the window and the camera's object agree on the main member. The condition is
  -- that this holds of the given address before.
  pub on_inputs-Shows :
      (outside : Outside) (es : List (Input Image)) (s : MeetingWidget × CameraVideo Image)
      → Shows Image is_null j s.0 s.1
      → Shows Image is_null j (on_inputs is_null outside es s).0 (on_inputs is_null outside es s).1
  unfolding on_inputs
  on_inputs-Shows outside [] s h = h
  on_inputs-Shows outside (e ∷ es) s h =
      on_inputs-Shows outside es (on_input is_null outside e s) (on_input-Shows outside e s h)
