-- ===== src/Client/Camera/Messages.antt =====
-- client/src/message/video/cameravideo.cpp and client/src/widget/meeting/meeting_widget.cpp: what the
-- labels of the members show after the messages from the network.
use cloud_meeting_client.Client.Camera.{call_camera, show_main_avatar}
use cloud_meeting_client.Client.Camera.Session.{run_calls}
use cloud_meeting_client.Client.Meeting.{
  Slot, modify, emit, skip, look, ◌>>◌, camera, CameraCall, Notice, box, room_created,
  joined_meeting, meeting_over, net_error, room_title,
}
use cloud_meeting_client.Prelude.{
  [], ◌∷◌, arith, Bool, false, if◌then◌else◌, true, List, ℕ, not, ◌++◌, ◌==◌,
}
use cloud_meeting_client.Client.Camera.Displays.{
  Keeps, keep_then, Keeps-if, end_meeting_session-Keeps, remove_partner-Keeps, show_self-Keeps,
  add_partner-Keeps, show_avatar-Shows, show_image-Shows, close_img-Keeps,
}
use cloud_meeting_client.Client.Meeting.Session.{end_meeting_session}
use cloud_meeting_client.Client.Meeting.Messages.{
  handle_create_meeting_response, handle_join_meeting_response, join_partner, handle_partner_join,
  handle_partner_exit, join_partners, handle_partner_join2, end_by_error, on_request_message,
  on_user_info_message, on_video_message, show_self, minus_one, handle_remote_host_closed_error,
  handle_close_camera, handle_img_recv, remove_first, handle_other_net_error,
}
use cloud_meeting_client.Client.Meeting.Partners.{
  update_meeting_info, has_partner, remove_partner, add_partner, in_meeting, is_positive,
}
use cloud_meeting_client.Client.Message.{
  Content, create_meeting_response_message, recv_image_message, join_meeting_response_message,
}
use cloud_meeting_client.Client.Message.{
  remote_host_closed_error_message, other_net_error_message, partner_join_message,
  partner_exit_message, close_camera_notify_message, create_meeting_response_message,
  recv_image_message, join_meeting_response_message, partner_join2_message,
}

module _ (Image : Type 0) (is_null : Image → Bool) (j : ℕ) where
  abbrev Kept : Slot Image → Type 0
  Kept = Keeps Image is_null j

  then_Kept : (f g : Slot Image) → Kept f → Kept g → Kept (f >> g)
  then_Kept = keep_then Image is_null j

  if_Kept : (b : Bool) (f g : Slot Image) → Kept f → Kept g → Kept (if b then f else g)
  if_Kept = Keeps-if Image is_null j

  create_response-Kept : (local_ip n : ℕ) → Kept (handle_create_meeting_response local_ip n)
  unfolding handle_create_meeting_response update_meeting_info run_calls
  create_response-Kept local_ip n =
      if_Kept (not (n == 0)) _ _
        (λ w.
          then_Kept (show_self local_ip)
            (update_meeting_info local_ip >> emit (box (room_created n)))
            (show_self-Keeps Image is_null j local_ip) (λ v d k. k)
            (record w {
              title = room_title n;
              room_no = n;
              createmeet = true;
              open_vedio_disabled = false;
              sendmsg_disabled = false;
            }))
        (λ w c h. h)

  join_response-Kept : (local_ip n : ℕ) → Kept (handle_join_meeting_response local_ip n)
  unfolding handle_join_meeting_response update_meeting_info run_calls
  join_response-Kept local_ip n =
      if_Kept (n == 0) _ _ (λ w c h. h)
        (if_Kept (n == minus_one) _ _ (λ w c h. h)
          (if_Kept (is_positive n) _ _
            (then_Kept (show_self local_ip)
              (modify (λ w. record w { sendmsg_disabled = false; joinmeet = true })
                >> update_meeting_info local_ip
                >> emit (box joined_meeting))
              (show_self-Keeps Image is_null j local_ip) (λ v d k. k))
            (λ w c h. h)))

  join_partner-Kept : (ip : ℕ) → Kept (join_partner ip)
  unfolding join_partner run_calls call_camera
  join_partner-Kept ip w =
      if_Kept (has_partner ip w) skip
        (add_partner ip
          >> emit (camera (CameraCall.show_avatar ip))
          >> modify (λ v. record v { iplist = v.iplist ++ ip ∷ [] }))
        (λ v d k. k)
        (then_Kept (add_partner ip)
          (emit (camera (CameraCall.show_avatar ip))
            >> modify (λ v. record v { iplist = v.iplist ++ ip ∷ [] }))
          (add_partner-Keeps Image is_null j ip) (λ v. show_avatar-Shows Image is_null j ip v))
        w

  partner_join-Kept : (local_ip ip : ℕ) → Kept (handle_partner_join local_ip ip)
  unfolding handle_partner_join update_meeting_info run_calls
  partner_join-Kept local_ip ip w =
      if_Kept (has_partner ip w) skip (join_partner ip >> update_meeting_info local_ip) (λ v d k. k)
        (then_Kept (join_partner ip) (update_meeting_info local_ip) (join_partner-Kept ip)
          (λ v d k. k))
        w

  abbrev main_left : ℕ → Slot Image
  main_left ip =
      look (λ w. if w.mainip == ip then emit (camera CameraCall.show_main_avatar) else skip)

  abbrev left_behind : ℕ → ℕ → Slot Image
  left_behind local_ip ip =
      modify (λ w. record w { iplist = remove_first ip w.iplist }) >> update_meeting_info local_ip

  main_left-Kept : (ip : ℕ) → Kept (main_left ip)
  unfolding run_calls call_camera show_main_avatar
  main_left-Kept ip w c h = ground arith

  partner_exit-Kept : (local_ip ip : ℕ) → Kept (handle_partner_exit local_ip ip)
  unfolding handle_partner_exit update_meeting_info run_calls
  partner_exit-Kept local_ip ip =
      then_Kept (remove_partner ip) (main_left ip >> left_behind local_ip ip)
        (remove_partner-Keeps Image is_null j ip)
        (then_Kept (main_left ip) (left_behind local_ip ip) (main_left-Kept ip) (λ v d k. k))

  join_partners-Kept : (ips : List ℕ) → Kept (join_partners ips)
  unfolding join_partners run_calls
  join_partners-Kept [] = λ w c h. h
  join_partners-Kept (ip ∷ ips) =
      then_Kept (join_partner ip) (join_partners ips) (join_partner-Kept ip)
        (join_partners-Kept ips)

  partner_join2-Kept : (local_ip : ℕ) (ips : List ℕ) → Kept (handle_partner_join2 local_ip ips)
  unfolding handle_partner_join2 update_meeting_info run_calls
  partner_join2-Kept local_ip ips =
      then_Kept (join_partners ips)
        (modify (λ w. record w { open_vedio_disabled = false }) >> update_meeting_info local_ip)
        (join_partners-Kept ips) (λ v d k. k)

  end_by_error-Kept : (notice : Notice) (local_ip : ℕ) → Kept (end_by_error notice local_ip)
  unfolding end_by_error run_calls
  end_by_error-Kept notice local_ip w =
      if_Kept w.session_ending skip
        (end_meeting_session local_ip >> (if in_meeting w then emit (box notice) else skip))
        (λ v d k. k)
        (then_Kept (end_meeting_session local_ip) (if in_meeting w then emit (box notice) else skip)
          (end_meeting_session-Keeps Image is_null j local_ip)
          (if_Kept (in_meeting w) (emit (box notice)) skip (λ v d k. k) (λ v d k. k)))
        w

  pub request_message-Kept :
      (local_ip : ℕ) (content : Content Image) → Kept (on_request_message local_ip content)
  unfolding on_request_message handle_remote_host_closed_error handle_other_net_error run_calls
  request_message-Kept local_ip content =
      elim content as (λ c. Kept (on_request_message local_ip c)) [
        | create_meeting_response_message n ↦ create_response-Kept local_ip n
        | join_meeting_response_message n ↦ join_response-Kept local_ip n
        | remote_host_closed_error_message ↦ end_by_error-Kept meeting_over local_ip
        | other_net_error_message ↦ end_by_error-Kept net_error local_ip
        | _ ↦ λ w c h. h
      ]

  pub user_info_message-Kept :
      (local_ip ip : ℕ) (content : Content Image) → Kept (on_user_info_message local_ip ip content)
  unfolding on_user_info_message handle_close_camera run_calls
  user_info_message-Kept local_ip ip content =
      elim content as (λ c. Kept (on_user_info_message local_ip ip c)) [
        | partner_join_message ↦ partner_join-Kept local_ip ip
        | partner_exit_message ↦ partner_exit-Kept local_ip ip
        | close_camera_notify_message ↦ close_img-Keeps Image is_null j ip
        | partner_join2_message ips ↦ partner_join2-Kept local_ip ips
        | _ ↦ λ w c h. h
      ]

  pub video_message-Kept : (ip : ℕ) (content : Content Image) → Kept (on_video_message ip content)
  unfolding on_video_message handle_img_recv run_calls call_camera
  video_message-Kept ip content = elim content as (λ c. Kept (on_video_message ip c)) [
    | recv_image_message image ↦
        then_Kept (add_partner ip) (emit (camera (CameraCall.show_image ip image)))
          (add_partner-Keeps Image is_null j ip) (λ v. show_image-Shows Image is_null j ip image v)
    | _ ↦ λ w c h. h
  ]
