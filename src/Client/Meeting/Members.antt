-- ===== src/Client/Meeting/Members.antt =====
-- client/src/widget/meeting/meeting_widget.cpp: the members that the window shows, as a set.
use cloud_meeting_client.Client.Hub.{
  channel_of, text_message_ready, request_message_ready, user_info_message_ready,
  video_message_ready,
}
use cloud_meeting_client.Client.Meeting.{
  MeetingWidget, Notice, Slot, skip, meeting_over, net_error, room_title,
}
use cloud_meeting_client.Client.Message.{
  close_camera_notify_message, remote_host_closed_error_message, other_net_error_message,
  partner_join_message, partner_exit_message, Content, partner_join2_message, recv_image_message,
  create_meeting_response_message, join_meeting_response_message, Message, recv_text_message,
}
use cloud_meeting_client.Prelude.{
  List, ◌==◌, ◌≡◌, arith, ==_iff, [], lookup-erase, Bool, ◌||◌, ℕ, lookup-emplace, not, false, inr,
  Bool-cases, ◌&&◌, inl, true, ◌∷◌, refl,
}
use cloud_meeting_client.Client.Meeting.Partners.{
  add_partner, remove_partner, has_partner, alone_again, clear_partner, update_meeting_info,
  reset_meeting_ui, is_positive, close_img,
}
use cloud_meeting_client.Client.Meeting.Session.{end_meeting_session}
use cloud_meeting_client.Client.Meeting.Messages.{
  join_partner, join_partners, show_self, handle_create_meeting_response,
  handle_join_meeting_response, end_by_error, on_request_message_slot, on_request_message,
  on_user_info_message_slot, on_video_message_slot, on_user_info_message, on_video_message,
  handle_remote_host_closed_error, handle_other_net_error, handle_close_camera, handle_img_recv,
  handle_partner_join, handle_partner_exit, handle_partner_join2,
}
use cloud_meeting_client.Client.Meeting.Events.{
  Outside, handle, request_message, user_info_message, text_message, video_message,
}
use cloud_meeting_client.Client.Meeting.Chat.{
  on_text_message_slot, handle_text_recv, deal_message_time, deal_message,
}

unfoldable pub is_in : ℕ → List ℕ → Bool
is_in j [] = false
is_in j (ip ∷ ips) = (ip == j) || is_in j ips

module _ (Image : Type 0) (local_ip : ℕ) where
  -- Whether `j` is a member after a message, by whether it was one.
  unfoldable pub after_message : Content Image → ℕ → Bool → ℕ → Bool → Bool
  after_message partner_join_message ip ending j was = was || (ip == j)
  after_message partner_exit_message ip ending j was = was && not (ip == j)
  after_message (partner_join2_message ips) ip ending j was = was || is_in j ips
  after_message (recv_image_message image) ip ending j was = was || (ip == j)
  after_message (create_meeting_response_message n) ip ending j was =
      was || (not (n == 0) && (local_ip == j))
  after_message (join_meeting_response_message n) ip ending j was =
      was || (is_positive n && (local_ip == j))
  after_message remote_host_closed_error_message ip ending j was = was && ending
  after_message other_net_error_message ip ending j was = was && ending
  after_message _ ip ending j was = was

  has_partner-add :
      (ip j : ℕ) (w : MeetingWidget)
      → has_partner j (add_partner {Image = Image} ip w).0 ≡ (has_partner j w || (ip == j))
  unfolding add_partner
  has_partner-add ip j w =
      ground (arith, lookup-emplace ip j (record { selected = false }) w.partner, ==_iff ip j)

  has_partner-remove :
      (ip j : ℕ) (w : MeetingWidget)
      → has_partner j (remove_partner {Image = Image} ip w).0 ≡ (has_partner j w && not (ip == j))
  unfolding remove_partner alone_again
  has_partner-remove ip j w = ground (arith, lookup-erase ip j w.partner, ==_iff ip j)

  partner-end :
      (w : MeetingWidget) → (end_meeting_session {Image = Image} local_ip w).0.partner ≡ []
  unfolding end_meeting_session clear_partner reset_meeting_ui update_meeting_info
  partner-end w = ground arith

  has_partner-join :
      (ip j : ℕ) (w : MeetingWidget)
      → has_partner j (join_partner {Image = Image} ip w).0 ≡ (has_partner j w || (ip == j))
  unfolding join_partner
  has_partner-join ip j w = ground (arith, has_partner-add ip j w, ==_iff ip j)

  has_partner-join_all :
      (ips : List ℕ) (j : ℕ) (w : MeetingWidget)
      → has_partner j (join_partners {Image = Image} ips w).0 ≡ (has_partner j w || is_in j ips)
  unfolding join_partners is_in
  has_partner-join_all [] j w = ground arith
  has_partner-join_all (ip ∷ ips) j w = ground (
    arith,
    has_partner-join_all ips j (join_partner {Image = Image} ip w).0,
    has_partner-join ip j w,
  )

  has_partner-show_self :
      (j : ℕ) (w : MeetingWidget)
      → w.has_network ≡ true
      → has_partner j (show_self {Image = Image} local_ip w).0
        ≡ (has_partner j w || (local_ip == j))
  unfolding show_self
  has_partner-show_self j w n = ground (arith, has_partner-add local_ip j w)

  has_partner-created :
      (n j : ℕ) (w : MeetingWidget)
      → w.has_network ≡ true
      → has_partner j (handle_create_meeting_response {Image = Image} local_ip n w).0
        ≡ (has_partner j w || (not (n == 0) && (local_ip == j)))
  unfolding handle_create_meeting_response update_meeting_info
  has_partner-created n j w net = elim (Bool-cases (n == 0)) [
    | inl e ↦ rw e (ground arith)
    | inr e ↦ rw e (
        has_partner-show_self j
          (record w {
            title = room_title n;
            room_no = n;
            createmeet = true;
            open_vedio_disabled = false;
            sendmsg_disabled = false;
          })
          net)
  ]

  has_partner-joined :
      (n j : ℕ) (w : MeetingWidget)
      → w.has_network ≡ true
      → has_partner j (handle_join_meeting_response {Image = Image} local_ip n w).0
        ≡ (has_partner j w || (is_positive n && (local_ip == j)))
  unfolding handle_join_meeting_response update_meeting_info
  has_partner-joined n j w net = ground (arith, has_partner-show_self j w net)

  has_partner-end_by_error :
      (notice : Notice) (j : ℕ) (w : MeetingWidget)
      → has_partner j (end_by_error {Image = Image} notice local_ip w).0
        ≡ (has_partner j w && w.session_ending)
  unfolding end_by_error
  has_partner-end_by_error notice j w = ground (arith, partner-end w)

module _ (Image : Type 0) (outside : Outside) where
  -- `init_connect`: the slot that a signal of the hub leads to, through `NetworkManager`.
  unfoldable pub receive_message : Message Image → Slot Image
  receive_message msg = elim (channel_of msg.content) [
    | request_message_ready ↦ handle outside (request_message msg)
    | user_info_message_ready ↦ handle outside (user_info_message msg)
    | text_message_ready ↦ handle outside (text_message msg)
    | video_message_ready ↦ handle outside (video_message msg)
    | _ ↦ skip
  ]

  -- After a message that the hub has emitted and the window has handled, an address is one of the
  -- members exactly when the message, the address it came from and the members before say so:
  -- joining and sending an image add, leaving removes, a list adds all its addresses, a positive
  -- answer adds the client itself, an error of the connection removes all, unless the session was
  -- ending already, and any other message changes nothing. The window has its network.
  pub receive_message-has_partner :
      (msg : Message Image) (j : ℕ) (w : MeetingWidget)
      → w.has_network ≡ true
      → has_partner j (receive_message msg w).0
        ≡ after_message Image outside.local_ip msg.content msg.ip w.session_ending j
            (has_partner j w)
  unfolding receive_message handle channel_of after_message on_request_message_slot
      on_request_message on_user_info_message_slot on_user_info_message on_video_message_slot
      on_video_message on_text_message_slot handle_text_recv deal_message_time deal_message
      handle_remote_host_closed_error handle_other_net_error handle_close_camera close_img
      handle_img_recv handle_partner_join handle_partner_exit handle_partner_join2
      update_meeting_info
  receive_message-has_partner msg j w n =
      elim msg.content
        as (λ c.
          has_partner j (receive_message (record { ip = msg.ip; content = c }) w).0
          ≡ after_message Image outside.local_ip c msg.ip w.session_ending j (has_partner j w)) [
            | create_meeting_response_message r ↦ has_partner-created Image outside.local_ip r j w n
            | join_meeting_response_message c ↦ has_partner-joined Image outside.local_ip c j w n
            | remote_host_closed_error_message ↦
                has_partner-end_by_error Image outside.local_ip meeting_over j w
            | other_net_error_message ↦
                has_partner-end_by_error Image outside.local_ip net_error j w
            | recv_image_message image ↦ has_partner-add Image outside.local_ip msg.ip j w
            | recv_text_message text ↦ ground arith
            | partner_join_message ↦
                ground (arith, has_partner-join Image outside.local_ip msg.ip j w, ==_iff msg.ip j)
            | partner_exit_message ↦
                ground (arith, has_partner-remove Image outside.local_ip msg.ip j w)
            | partner_join2_message ips ↦ has_partner-join_all Image outside.local_ip ips j w
            | close_camera_notify_message ↦ ground arith
            | _ ↦ refl
          ]
