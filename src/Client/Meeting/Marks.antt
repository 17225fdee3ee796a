-- ===== src/Client/Meeting/Marks.antt =====
-- client/src/widget/meeting/meeting_widget.cpp: which row of the chat is marked as sent.
use cloud_meeting_client.Client.Meeting.{◌>>◌, ChatItem, MeetingWidget}
use cloud_meeting_client.Prelude.{
  ◌∷◌, some, refl, List, true, ℕ, ◌++◌, ◌≡◌, [], false, Bytes, arith, ap, ◌∙◌,
}
use cloud_meeting_client.Client.Meeting.Chat.{
  mark_last, deal_message_time, deal_message, on_text_send_slot, on_send_msg_clicked_slot,
  message_item, handle_text_recv,
}

mark_last-append :
    (chat : List ChatItem) (item : ChatItem)
    → mark_last (chat ++ item ∷ []) ≡ some (chat ++ record item { sent = true } ∷ [])
unfolding mark_last
mark_last-append [] item = refl
mark_last-append (x ∷ []) item = refl
mark_last-append (x ∷ (y ∷ ys)) item = rw (mark_last-append (y ∷ ys) item) refl

marked :
    (u : MeetingWidget) (before : List ChatItem) (item : ChatItem)
    → u.chat ≡ before ++ item ∷ []
    → on_text_send_slot u
      ≡ some
          (record u { chat = before ++ record item { sent = true } ∷ []; sendmsg_disabled = false })
unfolding on_text_send_slot
marked u before item e =
    let m : mark_last u.chat ≡ some (before ++ record item { sent = true } ∷ []) =
      ap mark_last e ∙ mark_last-append before item in
    rw (on_text_send_slot, m) refl

module _ (Image : Type 0) where
  with_time : (cur_time : ℕ) (w : MeetingWidget) → List ChatItem
  with_time cur_time w = (deal_message_time {Image = Image} cur_time w).0.chat

  sent_chat :
      (local_ip cur_time : ℕ) (c : ℕ) (text : Bytes) (w : MeetingWidget)
      → w.has_network ≡ true
      → (on_send_msg_clicked_slot {Image = Image} local_ip cur_time (c ∷ text) w).0.chat
        ≡ with_time cur_time w ++ message_item cur_time (c ∷ text) local_ip true ∷ []
  unfolding on_send_msg_clicked_slot deal_message with_time
  sent_chat local_ip cur_time c text w n = ground arith

  received_chat :
      (show_address : ℕ → Bytes) (local_ip later ip : ℕ) (other : Bytes) (u : MeetingWidget)
      → (handle_text_recv {Image = Image} show_address local_ip later ip other u).0.chat
        ≡ with_time later u ++ message_item later other ip false ∷ []
  unfolding handle_text_recv deal_message with_time
  received_chat show_address local_ip later ip other u = ground arith

  -- With a network, the user's own text that is sent and then marked is the last row of the chat, with
  -- its mark, and the button for sending works again.
  pub on_text_send_slot_lem :
      (local_ip cur_time : ℕ) (c : ℕ) (text : Bytes) (w : MeetingWidget)
      → w.has_network ≡ true
      → (before : List ChatItem) × (v : MeetingWidget) × (on_text_send_slot
            (on_send_msg_clicked_slot {Image = Image} local_ip cur_time (c ∷ text) w).0
          ≡ some v)
        × (v.chat
            ≡ before
              ++ record (message_item cur_time (c ∷ text) local_ip true) { sent = true } ∷ [])
        × (v.sendmsg_disabled ≡ false)
  unfolding on_text_send_slot on_send_msg_clicked_slot deal_message_time deal_message
  on_text_send_slot_lem local_ip cur_time c text w n =
      let u = (on_send_msg_clicked_slot {Image = Image} local_ip cur_time (c ∷ text) w).0 in
      let item = message_item cur_time (c ∷ text) local_ip true in
      (
        with_time cur_time w,
        record u {
          chat = with_time cur_time w ++ record item { sent = true } ∷ [];
          sendmsg_disabled = false;
        },
        marked u (with_time cur_time w) item (sent_chat local_ip cur_time c text w n),
        refl,
        refl,
      )

  -- When a text of another member is shown between the sending of the user's text and its mark, the
  -- mark goes to the other's text.
  pub on_text_send_slot-handle_text_recv :
      (show_address : ℕ → Bytes) (local_ip ip now later : ℕ) (c : ℕ) (mine other : Bytes)
      (w : MeetingWidget)
      → (before : List ChatItem) × (v : MeetingWidget) × (on_text_send_slot
            ((on_send_msg_clicked_slot {Image = Image} local_ip now (c ∷ mine)
                >> handle_text_recv show_address local_ip later ip other)
              w).0
          ≡ some v)
        × (v.chat ≡ before ++ record (message_item later other ip false) { sent = true } ∷ [])
  unfolding on_text_send_slot on_send_msg_clicked_slot handle_text_recv deal_message_time
      deal_message
  on_text_send_slot-handle_text_recv show_address local_ip ip now later c mine other w =
      let u =
        ((on_send_msg_clicked_slot {Image = Image} local_ip now (c ∷ mine)
            >> handle_text_recv show_address local_ip later ip other)
          w).0 in
      let before =
        with_time later (on_send_msg_clicked_slot {Image = Image} local_ip now (c ∷ mine) w).0 in
      let item = message_item later other ip false in
      (
        before,
        record u { chat = before ++ record item { sent = true } ∷ []; sendmsg_disabled = false },
        marked u before item (
            received_chat show_address local_ip later ip other
              (on_send_msg_clicked_slot {Image = Image} local_ip now (c ∷ mine) w).0),
        refl,
      )
