-- ===== src/Client/Meeting/Consistency.antt =====
-- client/src/widget/meeting/meeting_widget.cpp: that a window stays consistent in the slots that open,
-- end and fill a session.
use cloud_meeting_client.Client.Message.{
  remote_host_closed_error_message, other_net_error_message, partner_join_message,
  partner_exit_message, close_camera_notify_message, Content, create_meeting_response_message,
  recv_image_message, join_meeting_response_message, partner_join2_message,
}
use cloud_meeting_client.Prelude.{
  ◌&&◌, ◌⊎◌, false, true, IsMap, ◌≡◌, none, emplace-IsMap, ℕ, arith, put, erase-IsMap, put-IsMap,
  ◌∷◌, Bytes, Bool, List, [], inl, ◌==◌, inr, Bool-cases, if◌then◌else◌,
}
use cloud_meeting_client.Client.Meeting.{
  ◌>>◌, MeetingWidget, Slot, ConnectRequest, Notice, meeting_over, net_error, room_title,
}
use cloud_meeting_client.Client.Meeting.Session.{
  request_connect_to_server_slot, flush_pending_connect, on_network_disconnected_slot, on_timeout,
  end_meeting_session, close_event, on_connect_finished_slot, on_disconnect_server_slot,
  discard_connect, accept_connect, refuse_connect, after_connect,
}
use cloud_meeting_client.Client.Meeting.Partners.{
  add_partner, remove_partner, clear_partner, close_img, update_meeting_info, reset_meeting_ui,
  on_recv_ip_slot, alone_again,
}
use cloud_meeting_client.Client.Meeting.Messages.{
  show_self, handle_create_meeting_response, handle_join_meeting_response, join_partner,
  handle_partner_join, handle_partner_exit, join_partners, handle_partner_join2, end_by_error,
  on_request_message, on_user_info_message, on_video_message, handle_remote_host_closed_error,
  handle_close_camera, handle_img_recv, handle_other_net_error,
}

-- No two members with one address; no session that is both there and ending, and a deferred request only while a session ends.
abbrev pub IsConsistent : MeetingWidget → Type 0
IsConsistent w =
    (w.has_network ≡ true)
    × (IsMap w.partner)
    × ((w.session_active && w.session_ending) ≡ false)
    × ((w.pending_connect ≡ none) ⊎ (w.session_ending ≡ true))

module _ (Image : Type 0) where
  abbrev pub Keeps : Slot Image → Type 0
  Keeps f = (w : MeetingWidget) → IsConsistent w → IsConsistent (f w).0

  pub keep_then : (f g : Slot Image) → Keeps f → Keeps g → Keeps (f >> g)
  keep_then f g kf kg w h = kg (f w).0 (kf w h)

  pub keep_if : (b : Bool) (f g : Slot Image) → Keeps f → Keeps g → Keeps (if b then f else g)
  keep_if true f g kf kg = kf
  keep_if false f g kf kg = kg

  pub request-Keeps : (request : ConnectRequest) → Keeps (request_connect_to_server_slot request)
  unfolding request_connect_to_server_slot
  request-Keeps request w h = ground arith

  pub flush-Keeps : Keeps flush_pending_connect
  unfolding flush_pending_connect request_connect_to_server_slot
  flush-Keeps w h = ground arith

  pub add_partner-Keeps : (ip : ℕ) → Keeps (add_partner ip)
  unfolding add_partner
  add_partner-Keeps ip w h =
      ground (arith, emplace-IsMap ip (record { selected = false }) w.partner)

  pub remove_partner-Keeps : (ip : ℕ) → Keeps (remove_partner ip)
  unfolding remove_partner alone_again
  remove_partner-Keeps ip w h = ground (arith, erase-IsMap ip w.partner)

  pub clear_partner-Keeps : Keeps clear_partner
  unfolding clear_partner
  clear_partner-Keeps w h = ground arith

  pub close_img-Keeps : (ip : ℕ) → Keeps (close_img ip)
  unfolding close_img
  close_img-Keeps ip w h = ground arith

  pub update-Keeps : (local_ip : ℕ) → Keeps (update_meeting_info local_ip)
  unfolding update_meeting_info
  update-Keeps local_ip w h = h

  pub reset-Keeps : (local_ip : ℕ) → Keeps (reset_meeting_ui local_ip)
  unfolding reset_meeting_ui update_meeting_info
  reset-Keeps local_ip w h = h

  pub on_recv_ip-Keeps : (ip : ℕ) → Keeps (on_recv_ip_slot ip)
  unfolding on_recv_ip_slot
  on_recv_ip-Keeps ip w h = (
    h.0,
    put-IsMap ip (record { selected = true }) (put w.mainip (record { selected = false }) w.partner)
        (put-IsMap w.mainip (record { selected = false }) w.partner h.1),
    h.2,
    h.3,
  )

  pub on_network_disconnected-Keeps : (local_ip : ℕ) → Keeps (on_network_disconnected_slot local_ip)
  unfolding on_network_disconnected_slot update_meeting_info flush_pending_connect
      request_connect_to_server_slot
  on_network_disconnected-Keeps local_ip w h = ground arith

  pub on_timeout-Keeps : (local_ip : ℕ) → Keeps (on_timeout local_ip)
  unfolding on_timeout update_meeting_info flush_pending_connect request_connect_to_server_slot
  on_timeout-Keeps local_ip w h = ground arith

  pub end_meeting_session-Keeps : (local_ip : ℕ) → Keeps (end_meeting_session local_ip)
  unfolding end_meeting_session clear_partner reset_meeting_ui update_meeting_info
  end_meeting_session-Keeps local_ip w h = ground arith

  pub close_event-Keeps : (local_ip : ℕ) → Keeps (close_event local_ip)
  unfolding close_event end_meeting_session clear_partner reset_meeting_ui update_meeting_info
  close_event-Keeps local_ip w h = ground arith

  pub on_connect_finished-Keeps :
      (to_int : Bytes → ℕ) (local_ip : ℕ) (good : Bool) (request : ConnectRequest)
      → Keeps (on_connect_finished_slot to_int local_ip good request)
  unfolding on_connect_finished_slot discard_connect accept_connect refuse_connect after_connect
      update_meeting_info
  on_connect_finished-Keeps to_int local_ip good request w h = ground arith

  pub on_disconnect_server-Keeps : (local_ip : ℕ) → Keeps (on_disconnect_server_slot local_ip)
  unfolding on_disconnect_server_slot update_meeting_info
  on_disconnect_server-Keeps local_ip w h = ground arith

  pub show_self-Keeps : (local_ip : ℕ) → Keeps (show_self local_ip)
  unfolding show_self
  show_self-Keeps local_ip w h = ground (arith, add_partner-Keeps local_ip w h)

  pub create_response-Keeps : (local_ip n : ℕ) → Keeps (handle_create_meeting_response local_ip n)
  unfolding handle_create_meeting_response update_meeting_info
  create_response-Keeps local_ip n w h = elim (Bool-cases (n == 0)) [
    | inl e ↦ rw e h
    | inr e ↦ rw e (
        show_self-Keeps local_ip
          (record w {
            title = room_title n;
            room_no = n;
            createmeet = true;
            open_vedio_disabled = false;
            sendmsg_disabled = false;
          })
          h)
  ]

  pub join_response-Keeps : (local_ip n : ℕ) → Keeps (handle_join_meeting_response local_ip n)
  unfolding handle_join_meeting_response update_meeting_info
  join_response-Keeps local_ip n w h = ground (arith, show_self-Keeps local_ip w h)

  pub join_partner-Keeps : (ip : ℕ) → Keeps (join_partner ip)
  unfolding join_partner
  join_partner-Keeps ip w h = ground (arith, add_partner-Keeps ip w h)

  pub partner_join-Keeps : (local_ip ip : ℕ) → Keeps (handle_partner_join local_ip ip)
  unfolding handle_partner_join update_meeting_info
  partner_join-Keeps local_ip ip w h = ground (arith, join_partner-Keeps ip w h)

  pub partner_exit-Keeps : (local_ip ip : ℕ) → Keeps (handle_partner_exit local_ip ip)
  unfolding handle_partner_exit update_meeting_info
  partner_exit-Keeps local_ip ip w h = ground (arith, remove_partner-Keeps ip w h)

  pub join_partners-Keeps : (ips : List ℕ) → Keeps (join_partners ips)
  unfolding join_partners
  join_partners-Keeps [] w h = h
  join_partners-Keeps (ip ∷ ips) w h =
      keep_then (join_partner ip) (join_partners ips) (join_partner-Keeps ip)
        (join_partners-Keeps ips) w h

  pub partner_join2-Keeps :
      (local_ip : ℕ) (ips : List ℕ) → Keeps (handle_partner_join2 local_ip ips)
  unfolding handle_partner_join2 update_meeting_info
  partner_join2-Keeps local_ip ips w h = join_partners-Keeps ips w h

  pub end_by_error-Keeps : (notice : Notice) (local_ip : ℕ) → Keeps (end_by_error notice local_ip)
  unfolding end_by_error
  end_by_error-Keeps notice local_ip w h = ground (arith, end_meeting_session-Keeps local_ip w h)

  pub request_message-Keeps :
      (local_ip : ℕ) (content : Content Image) → Keeps (on_request_message local_ip content)
  unfolding on_request_message handle_remote_host_closed_error handle_other_net_error
  request_message-Keeps local_ip content w h =
      elim content as (λ c. IsConsistent (on_request_message local_ip c w).0) [
        | create_meeting_response_message n ↦ create_response-Keeps local_ip n w h
        | join_meeting_response_message n ↦ join_response-Keeps local_ip n w h
        | remote_host_closed_error_message ↦ end_by_error-Keeps meeting_over local_ip w h
        | other_net_error_message ↦ end_by_error-Keeps net_error local_ip w h
        | _ ↦ h
      ]

  pub user_info_message-Keeps :
      (local_ip ip : ℕ) (content : Content Image) → Keeps (on_user_info_message local_ip ip content)
  unfolding on_user_info_message handle_close_camera
  user_info_message-Keeps local_ip ip content w h =
      elim content as (λ c. IsConsistent (on_user_info_message local_ip ip c w).0) [
        | partner_join_message ↦ partner_join-Keeps local_ip ip w h
        | partner_exit_message ↦ partner_exit-Keeps local_ip ip w h
        | close_camera_notify_message ↦ close_img-Keeps ip w h
        | partner_join2_message ips ↦ partner_join2-Keeps local_ip ips w h
        | _ ↦ h
      ]

  pub video_message-Keeps : (ip : ℕ) (content : Content Image) → Keeps (on_video_message ip content)
  unfolding on_video_message handle_img_recv
  video_message-Keeps ip content w h =
      elim content as (λ c. IsConsistent (on_video_message ip c w).0) [
        | recv_image_message image ↦ add_partner-Keeps ip w h
        | _ ↦ h
      ]
