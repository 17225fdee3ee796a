-- ===== src/Client/Meeting/Messages.antt =====
-- client/src/widget/meeting/meeting_widget.cpp: what the window does with the messages that the
-- network passes on, but for texts.
use cloud_meeting_client.Client.Message.{
  Message, Content, create_meeting_response_message, join_meeting_response_message,
  remote_host_closed_error_message, other_net_error_message, partner_join_message,
  partner_exit_message, partner_join2_message, close_camera_notify_message, recv_image_message,
}
use cloud_meeting_client.Client.Meeting.{
  Slot, emit, modify, skip, look, ◌>>◌, Notice, room_created, no_room, camera, meeting_over,
  net_error, set_local_ip, box, show_image, show_avatar, show_main_avatar, set_main_ip, no_meeting,
  full_meeting, joined_meeting, address_title, room_title,
}
use cloud_meeting_client.Client.Meeting.Partners.{
  update_meeting_info, add_partner, remove_partner, close_img, has_partner, in_meeting, is_positive,
}
use cloud_meeting_client.Client.Meeting.Session.{end_meeting_session}
use cloud_meeting_client.Prelude.{
  ℕ, ◌==◌, if◌then◌else◌, ◌-◌, not, true, ◌++◌, false, ◌∷◌, List, ◌^◌, [],
}

-- `std::find` and `erase` of the first occurrence.
unfoldable pub remove_first : ℕ → List ℕ → List ℕ
remove_first ip [] = []
remove_first ip (x ∷ xs) = if x == ip then xs else x ∷ remove_first ip xs

-- `c == -1` on a word of 32 bits.
abbrev pub minus_one : ℕ
minus_one = 2 ^ 32 - 1

module _ {Image : Type 0} where
  -- The member that the user is, shown on the main screen.
  unfoldable pub show_self : ℕ → Slot Image
  show_self local_ip = look (λ w.
      if w.has_network
      then add_partner local_ip
        >> modify (λ v. record v { mainip = local_ip })
        >> emit (camera (set_local_ip local_ip))
        >> emit (camera (set_main_ip local_ip))
        >> modify (λ v. record v { title = address_title local_ip })
        >> emit (camera show_main_avatar)
      else skip)

  unfoldable pub handle_create_meeting_response : ℕ → ℕ → Slot Image
  handle_create_meeting_response local_ip roomno =
      if not (roomno == 0)
      then modify (λ w. record w {
        title = room_title roomno;
        room_no = roomno;
        createmeet = true;
        open_vedio_disabled = false;
        sendmsg_disabled = false;
      })
        >> show_self local_ip
        >> update_meeting_info local_ip
        >> emit (box (room_created roomno))
      else modify (λ w. record w { createmeet = false })
        >> update_meeting_info local_ip
        >> emit (box no_room)

  unfoldable pub handle_join_meeting_response : ℕ → ℕ → Slot Image
  handle_join_meeting_response local_ip c =
      if c == 0
      then emit (box no_meeting)
        >> modify (λ w. record w {
          open_vedio_disabled = true;
          sendmsg_disabled = true;
          joinmeet = false;
          room_no = 0;
        })
        >> update_meeting_info local_ip
      else if c == minus_one
      then emit (box full_meeting) >> update_meeting_info local_ip
      else if is_positive c
      then show_self local_ip
        >> modify (λ w. record w { sendmsg_disabled = false; joinmeet = true })
        >> update_meeting_info local_ip
        >> emit (box joined_meeting)
      else skip

  unfoldable pub handle_img_recv : ℕ → Image → Slot Image
  handle_img_recv ip image = add_partner ip >> emit (camera (show_image ip image))

  -- What is done for a member that was not there: its picture, and its name for completion.
  unfoldable pub join_partner : ℕ → Slot Image
  join_partner ip = look (λ w.
      if has_partner ip w
      then skip
      else add_partner ip
        >> emit (camera (show_avatar ip))
        >> modify (λ v. record v { iplist = v.iplist ++ ip ∷ [] }))

  unfoldable pub handle_partner_join : ℕ → ℕ → Slot Image
  handle_partner_join local_ip ip =
      look (λ w. if has_partner ip w then skip else join_partner ip >> update_meeting_info local_ip)

  unfoldable pub handle_partner_exit : ℕ → ℕ → Slot Image
  handle_partner_exit local_ip ip =
      remove_partner ip
      >> look (λ w. if w.mainip == ip then emit (camera show_main_avatar) else skip)
      >> modify (λ w. record w { iplist = remove_first ip w.iplist })
      >> update_meeting_info local_ip

  unfoldable pub handle_close_camera : ℕ → Slot Image
  handle_close_camera ip = close_img ip

  -- The loop of `handle_partner_join2`.
  unfoldable pub join_partners : List ℕ → Slot Image
  join_partners [] = skip
  join_partners (ip ∷ ips) = join_partner ip >> join_partners ips

  unfoldable pub handle_partner_join2 : ℕ → List ℕ → Slot Image
  handle_partner_join2 local_ip ips =
      join_partners ips
      >> modify (λ w. record w { open_vedio_disabled = false })
      >> update_meeting_info local_ip

  -- The two errors differ in the box that tells the end of the meeting.
  unfoldable pub end_by_error : Notice → ℕ → Slot Image
  end_by_error notice local_ip = look (λ w.
      if w.session_ending
      then skip
      else end_meeting_session local_ip >> (if in_meeting w then emit (box notice) else skip))

  unfoldable pub handle_remote_host_closed_error : ℕ → Slot Image
  handle_remote_host_closed_error = end_by_error meeting_over

  unfoldable pub handle_other_net_error : ℕ → Slot Image
  handle_other_net_error = end_by_error net_error

  unfoldable pub on_request_message : ℕ → Content Image → Slot Image
  on_request_message local_ip (create_meeting_response_message room_no) =
      handle_create_meeting_response local_ip room_no
  on_request_message local_ip (join_meeting_response_message code) =
      handle_join_meeting_response local_ip code
  on_request_message local_ip remote_host_closed_error_message =
      handle_remote_host_closed_error local_ip
  on_request_message local_ip other_net_error_message = handle_other_net_error local_ip
  on_request_message local_ip _ = skip

  unfoldable pub on_user_info_message : ℕ → ℕ → Content Image → Slot Image
  on_user_info_message local_ip ip partner_join_message = handle_partner_join local_ip ip
  on_user_info_message local_ip ip partner_exit_message = handle_partner_exit local_ip ip
  on_user_info_message local_ip ip close_camera_notify_message = handle_close_camera ip
  on_user_info_message local_ip ip (partner_join2_message ips) = handle_partner_join2 local_ip ips
  on_user_info_message local_ip ip _ = skip

  unfoldable pub on_request_message_slot : ℕ → Message Image → Slot Image
  on_request_message_slot local_ip msg = on_request_message local_ip msg.content

  unfoldable pub on_user_info_message_slot : ℕ → Message Image → Slot Image
  on_user_info_message_slot local_ip msg = on_user_info_message local_ip msg.ip msg.content

  unfoldable pub on_video_message : ℕ → Content Image → Slot Image
  on_video_message ip (recv_image_message image) = handle_img_recv ip image
  on_video_message ip _ = skip

  unfoldable pub on_video_message_slot : Message Image → Slot Image
  on_video_message_slot msg = on_video_message msg.ip msg.content
