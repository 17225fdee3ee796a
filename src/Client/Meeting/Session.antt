-- ===== src/Client/Meeting/Session.antt =====
-- client/src/widget/meeting/meeting_widget.cpp: connecting, and the end of a session. `local_ip` is
-- what the network returns for the local address.
use cloud_meeting_client.Client.Meeting.{
  no_action, create_action, join_action, ConnectRequest, Slot, emit, modify, skip, look, ◌>>◌,
  camera, connect_server_finished, end_video, disconnect_call, request_connect, stop_audio,
  start_timer, create_meeting_requested, join_meeting_requested,
}
use cloud_meeting_client.Client.Meeting.Partners.{
  update_meeting_info, clear_partner, reset_meeting_ui,
}
use cloud_meeting_client.Prelude.{
  ℕ, Bool, ◌&&◌, if◌then◌else◌, not, none, ◌∷◌, false, Bytes, [], some, ◌++◌, true, ◌||◌,
}

module _ {Image : Type 0} where
  unfoldable pub request_connect_to_server_slot : ConnectRequest → Slot Image
  request_connect_to_server_slot request = look (λ w.
      if not w.has_network || not w.has_controller || w.connecting
      then emit (connect_server_finished false request)
      else if w.session_ending
      then modify (λ v. record v { pending_connect = some request })
      else modify (λ v. record v { connecting = true }) >> emit (request_connect request))

  unfoldable pub flush_pending_connect : Slot Image
  flush_pending_connect = look (λ w. elim w.pending_connect [
    | none ↦ skip
    | some request ↦
        modify (λ v. record v { pending_connect = none }) >> request_connect_to_server_slot request
  ])

  -- The slot for `disconnected`, and the callback of the timer of `end_meeting_session`.
  unfoldable pub on_network_disconnected_slot : ℕ → Slot Image
  on_network_disconnected_slot local_ip =
      modify (λ w. record w { session_active = false; session_ending = false; connecting = false })
      >> update_meeting_info local_ip
      >> flush_pending_connect

  unfoldable pub on_timeout : ℕ → Slot Image
  on_timeout local_ip = look (λ w.
      if not w.session_ending
      then skip
      else modify
          (λ v. record v { session_ending = false; session_active = false; connecting = false })
        >> update_meeting_info local_ip
        >> flush_pending_connect)

  unfoldable pub end_meeting_session : ℕ → Slot Image
  end_meeting_session local_ip = look (λ w.
      emit (camera end_video)
      >> emit stop_audio
      >> modify (λ v. record v { createmeet = false; joinmeet = false; connecting = false })
      >> clear_partner
      >> reset_meeting_ui local_ip
      >> (if w.has_network && (w.session_active || w.connecting)
          then modify (λ v. record v { session_ending = true })
            >> emit disconnect_call
            >> modify (λ v. record v { session_active = false })
            >> emit start_timer
          else skip))

  unfoldable pub close_event : ℕ → Slot Image
  close_event local_ip =
      modify (λ w. record w { is_visible = false; pending_connect = none })
      >> look (λ w.
        if w.session_ending
        then skip
        else modify (λ v. record v { session_ending = true }) >> end_meeting_session local_ip)

  -- A result that comes too late: a connection that was made is given up again.
  unfoldable pub discard_connect : Bool → ConnectRequest → Slot Image
  discard_connect ok request = look (λ w.
      (if ok && w.has_network
        then modify (λ v. record v { session_ending = true; session_active = false })
          >> emit disconnect_call
        else skip)
      >> emit (connect_server_finished false request))

  -- What follows a connection, by the action of its request. `to_int` is `QString::toInt`.
  unfoldable pub after_connect : (Bytes → ℕ) → ℕ → ConnectRequest → Slot Image
  after_connect to_int local_ip request = elim request.action [
    | no_action ↦ skip
    | create_action ↦ emit create_meeting_requested
    | join_action ↦
        modify (λ w. record w { room_no = to_int request.room_no })
        >> update_meeting_info local_ip
        >> emit (join_meeting_requested request.room_no)
  ]

  unfoldable pub accept_connect : (Bytes → ℕ) → ℕ → ConnectRequest → Slot Image
  accept_connect to_int local_ip request =
      modify (λ w. record w {
        session_active = true;
        session_ending = false;
        server_addr = request.ip ++ b':' ∷ request.port;
      })
      >> update_meeting_info local_ip
      >> modify (λ w. record w {
        open_audio_disabled = true;
        open_vedio_disabled = true;
        sendmsg_disabled = true;
      })
      >> after_connect to_int local_ip request

  unfoldable pub refuse_connect : ConnectRequest → Slot Image
  refuse_connect request = elim request.action [
    | no_action ↦ skip
    | create_action ↦ modify (λ w. record w { is_visible = false })
    | join_action ↦ modify (λ w. record w { is_visible = false })
  ]

  unfoldable pub on_connect_finished_slot : (Bytes → ℕ) → ℕ → Bool → ConnectRequest → Slot Image
  on_connect_finished_slot to_int local_ip ok request =
      modify (λ w. record w { connecting = false })
      >> look (λ w.
        if w.session_ending || not w.is_visible
        then discard_connect ok request
        else (if ok then accept_connect to_int local_ip request else refuse_connect request)
          >> emit (connect_server_finished ok request))

  unfoldable pub on_disconnect_server_slot : ℕ → Slot Image
  on_disconnect_server_slot local_ip = look (λ w.
      if w.has_network && w.session_active
      then modify
          (λ v. record v { session_ending = true; session_active = false; server_addr = [] })
        >> update_meeting_info local_ip
        >> emit disconnect_call
      else skip)
