-- ===== src/Client/Meeting/Chat.antt =====
-- client/src/widget/meeting/meeting_widget.cpp: the chat, the buttons and the other slots.
use cloud_meeting_client.Client.Message.{recv_text_message, Message}
use cloud_meeting_client.Client.Meeting.{
  open_audio_text, close_audio_text, MeetingWidget, ChatItem, Slot, emit, modify, skip, look, ◌>>◌,
  AudioText, set_volume, camera, play_sound, create_meeting_requested, stop_camera, start_audio,
  box, send_image_call, send_text_call, clear_pending_images, stop_audio, bad_room_no,
  video_off_text, join_meeting_requested, send_close_camera_call, start_camera, video_on_text,
}
use cloud_meeting_client.Client.Meeting.Partners.{update_meeting_info, close_img, in_meeting}
use cloud_meeting_client.Prelude.{
  ℕ, Bool, ltb, false, Option, ◌+◌, some, not, true, List, leb, ◌==◌, none, ◌∷◌, ◌++◌, length, ◌||◌,
  if◌then◌else◌, ◌&&◌, Bytes, [],
}
use cloud_meeting_client.Server.Connection.{is_empty}

abbrev pub last_time : List ChatItem → Option ℕ
last_time [] = none
last_time (x ∷ []) = some x.time
last_time (x ∷ (y ∷ ys)) = last_time (y ∷ ys)

-- The time is shown above a first message and after a minute without one.
unfoldable pub is_show_time : List ChatItem → ℕ → Bool
is_show_time chat cur_time = elim (last_time chat) [
  | none ↦ true
  | some last ↦ ltb (last + 60) cur_time
]

abbrev pub time_item : ℕ → ChatItem
time_item cur_time = record { time = cur_time; text = none; ip = 0; mine = false; sent = false }

abbrev pub message_item : ℕ → Bytes → ℕ → Bool → ChatItem
message_item cur_time text ip mine = record {
  time = cur_time;
  text = some text;
  ip = ip;
  mine = mine;
  sent = false;
}

-- `setTextSuccess` on the last row; `none` where there is no row, whose widget would be a null pointer.
unfoldable pub mark_last : List ChatItem → Option (List ChatItem)
mark_last [] = none
mark_last (x ∷ []) = some (record x { sent = true } ∷ [])
mark_last (x ∷ (y ∷ ys)) = elim (mark_last (y ∷ ys)) [ none ↦ none | some zs ↦ some (x ∷ zs) ]

abbrev pub is_digit : ℕ → Bool
is_digit c = leb b'0' c && leb c b'9'

unfoldable pub all_digits : Bytes → Bool
all_digits [] = true
all_digits (c ∷ cs) = is_digit c && all_digits cs

-- `^[1-9][0-9]{0,10}$`
unfoldable pub is_room_no : Bytes → Bool
is_room_no [] = false
is_room_no (c ∷ cs) = is_digit c && not (c == b'0') && all_digits cs && leb (length cs) 10

-- Whether a text contains another.
unfoldable pub starts_with : Bytes → Bytes → Bool
starts_with [] t = true
starts_with (c ∷ cs) [] = false
starts_with (c ∷ cs) (d ∷ t) = c == d && starts_with cs t

unfoldable pub contains : Bytes → Bytes → Bool
contains s [] = starts_with s []
contains s (d ∷ t) = starts_with s (d ∷ t) || contains s t

-- `none` is the null pointer that an empty list leads to.
unfoldable pub on_text_send_slot : MeetingWidget → Option MeetingWidget
on_text_send_slot w = elim (mark_last w.chat) [
  | none ↦ none
  | some chat ↦ some (record w { chat = chat; sendmsg_disabled = false })
]

module _ {Image : Type 0} where
  unfoldable pub deal_message_time : ℕ → Slot Image
  deal_message_time cur_time = modify (λ w.
      if is_show_time w.chat cur_time
      then record w { chat = w.chat ++ time_item cur_time ∷ [] }
      else w)

  unfoldable pub deal_message : ChatItem → Slot Image
  deal_message item = modify (λ w. record w { chat = w.chat ++ item ∷ [] })

  -- `show_address` is `QHostAddress::toString`.
  unfoldable pub handle_text_recv : (ℕ → Bytes) → ℕ → ℕ → ℕ → Bytes → Slot Image
  handle_text_recv show_address local_ip cur_time ip text =
      deal_message_time cur_time
      >> deal_message (message_item cur_time text ip false)
      >> look (λ w.
        if contains (b'@' ∷ show_address (if w.has_network then local_ip else 0)) text
        then emit play_sound
        else skip)

  unfoldable pub on_text_message_slot : (ℕ → Bytes) → ℕ → ℕ → Message Image → Slot Image
  on_text_message_slot show_address local_ip cur_time msg = elim msg.content [
    | recv_text_message text ↦ handle_text_recv show_address local_ip cur_time msg.ip text
    | _ ↦ skip
  ]

  -- On the text of the input field without the blanks at its ends.
  unfoldable pub on_send_msg_clicked_slot : ℕ → ℕ → Bytes → Slot Image
  on_send_msg_clicked_slot local_ip cur_time msg = look (λ w.
      if is_empty msg
      then skip
      else deal_message_time cur_time
        >> deal_message (message_item cur_time msg (if w.has_network then local_ip else 0) true)
        >> (if not w.has_network
            then modify (λ v. record v { sendmsg_disabled = false })
            else emit (send_text_call msg) >> modify (λ v. record v { sendmsg_disabled = true })))

  unfoldable pub on_create_meet_btn_clicked_slot : Slot Image
  on_create_meet_btn_clicked_slot = look (λ w.
      if not w.createmeet
      then modify (λ v. record v { open_audio_disabled = true; open_vedio_disabled = true })
        >> emit create_meeting_requested
      else skip)

  unfoldable pub on_open_vedio_clicked_slot : Bool → ℕ → Slot Image
  on_open_vedio_clicked_slot camera_running local_ip = look (λ w.
      if camera_running
      then emit (camera stop_camera)
        >> (if w.has_network then emit clear_pending_images else skip)
        >> modify (λ v. record v { open_vedio_label = video_off_text })
        >> (if w.has_network then emit send_close_camera_call >> close_img local_ip else skip)
      else emit (camera start_camera)
        >> modify (λ v. record v { open_vedio_label = video_on_text }))

  unfoldable pub toggle_audio : AudioText → Slot Image
  toggle_audio open_audio_text =
      emit start_audio >> modify (λ v. record v { open_audio_label = close_audio_text })
  toggle_audio close_audio_text =
      emit stop_audio >> modify (λ v. record v { open_audio_label = open_audio_text })

  unfoldable pub on_open_audio_clicked_slot : Slot Image
  on_open_audio_clicked_slot =
      look (λ w. if not (in_meeting w) then skip else toggle_audio w.open_audio_label)

  unfoldable pub on_join_meet_btn_slot : (Bytes → ℕ) → ℕ → Bytes → Slot Image
  on_join_meet_btn_slot to_int local_ip room_no =
      if not (is_room_no room_no)
      then emit (box bad_room_no)
      else modify (λ w. record w { room_no = to_int room_no })
        >> emit (join_meeting_requested room_no)
        >> update_meeting_info local_ip

  unfoldable pub on_local_frame_captured_slot : Bool → Image → Slot Image
  on_local_frame_captured_slot camera_running image = look (λ w.
      if not camera_running || not w.has_network || leb (length w.partner) 1
      then skip
      else emit (send_image_call image))

  unfoldable pub on_horizontal_slider_value_changed_slot : ℕ → Slot Image
  on_horizontal_slider_value_changed_slot value = emit (set_volume value)

  unfoldable pub on_speaks_slot : Bytes → Slot Image
  on_speaks_slot ip = modify (λ w. record w { info = record w.info { speaker = some ip } })
