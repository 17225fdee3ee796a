-- ===== src/Client/Meeting/Partners.antt =====
-- client/src/widget/meeting/meeting_widget.cpp: the members that the window shows.
use cloud_meeting_client.Client.Meeting.{
  MeetingWidget, MeetingInfo, Slot, emit, modify, skip, look, ◌>>◌, ServerLabel, not_in_meeting,
  camera, stop_audio, created, at_address, add_display, stop_play, remove_display, clear_displays,
  show_avatar, refresh_main, joined, connected, start_play, open_audio_text, close_audio_text,
  not_connected, clear_pending_images, open_video_text, address_title, no_title,
}
use cloud_meeting_client.Prelude.{
  ℕ, Bool, erase, [], true, put, none, lookup, some, if◌then◌else◌, ◌&&◌, leb, not, ◌||◌, false,
  ◌^◌, ltb, emplace, length, ◌==◌,
}
use cloud_meeting_client.Server.Connection.{is_empty}

abbrev pub has_partner : ℕ → MeetingWidget → Bool
has_partner ip w = elim (lookup ip w.partner) [ none ↦ false | some p ↦ true ]

abbrev pub in_meeting : MeetingWidget → Bool
in_meeting w = w.createmeet || w.joinmeet

-- `_roomNo > 0` on a word of 32 bits.
abbrev pub is_positive : ℕ → Bool
is_positive n = ltb 0 n && ltb n (2 ^ 31)

-- The labels of the left side, then that of the server, for the local address that the network knows.
unfoldable pub meeting_labels : ℕ → MeetingWidget → MeetingInfo
meeting_labels local_ip w =
    if not (in_meeting w)
    then record w.info {
      status = not_in_meeting;
      room = none;
      members = 0;
      local_ip = none;
      speaker = none;
    }
    else record w.info {
      status = if w.createmeet then created else joined;
      room = if is_positive w.room_no then some w.room_no else none;
      members = length w.partner;
      local_ip = if w.has_network && not (local_ip == 0) then some local_ip else none;
    }

unfoldable pub server_label : MeetingWidget → ServerLabel
server_label w =
    if w.session_active && not (is_empty w.server_addr)
    then at_address w.server_addr
    else if w.session_active
    then connected
    else not_connected

-- `setSelected` and `resetBorder` on a member that is there.
abbrev select : Bool → ℕ → MeetingWidget → MeetingWidget
select chosen ip w = record w { partner = put ip (record { selected = chosen }) w.partner }

module _ {Image : Type 0} where
  unfoldable pub update_meeting_info : ℕ → Slot Image
  update_meeting_info local_ip =
      modify
        (λ w. record w { info = record (meeting_labels local_ip w) { server = server_label w } })

  -- A member that is there stays as it is.
  unfoldable pub add_partner : ℕ → Slot Image
  add_partner ip = look (λ w.
      if has_partner ip w
      then skip
      else modify (λ v. record v { partner = emplace ip (record { selected = false }) v.partner })
        >> emit (camera (add_display ip))
        >> look (λ v.
          if ltb 1 (length v.partner)
          then modify (λ u. record u { open_audio_disabled = false; sendmsg_disabled = false })
            >> emit start_play
          else skip))

  -- With one member left or none, the audio stops.
  unfoldable pub alone_again : Slot Image
  alone_again = look (λ w.
      if leb (length w.partner) 1
      then emit stop_audio
        >> emit stop_play
        >> modify (λ v. record v { open_audio_label = open_audio_text; open_audio_disabled = true })
      else skip)

  unfoldable pub remove_partner : ℕ → Slot Image
  remove_partner ip = look (λ w.
      if has_partner ip w
      then emit (camera (remove_display ip))
        >> modify (λ v. record v { partner = erase ip v.partner })
        >> alone_again
      else skip)

  unfoldable pub clear_partner : Slot Image
  clear_partner = look (λ w.
      if is_empty w.partner
      then skip
      else emit (camera clear_displays)
        >> modify (λ v. record v { partner = [] })
        >> emit stop_audio
        >> emit stop_play
        >> modify
            (λ v. record v { open_audio_label = close_audio_text; open_audio_disabled = true })
        >> (if w.has_network then emit clear_pending_images else skip)
        >> modify
            (λ v. record v { open_vedio_label = open_video_text; open_vedio_disabled = true }))

  unfoldable pub close_img : ℕ → Slot Image
  close_img ip = look (λ w. if has_partner ip w then emit (camera (show_avatar ip)) else skip)

  unfoldable pub on_recv_ip_slot : ℕ → Slot Image
  on_recv_ip_slot ip =
      modify (λ w. select false w.mainip w)
      >> modify (λ w. select true ip w)
      >> modify (λ w. record w { mainip = ip; title = address_title ip })
      >> emit (camera (refresh_main ip))

  unfoldable pub reset_meeting_ui : ℕ → Slot Image
  reset_meeting_ui local_ip =
      modify (λ w. record w {
        open_audio_disabled = true;
        open_vedio_disabled = true;
        sendmsg_disabled = true;
        title = no_title;
        room_no = 0;
        server_addr = [];
      })
      >> update_meeting_info local_ip
      >> modify (λ w. record w { chat = []; iplist = [] })
