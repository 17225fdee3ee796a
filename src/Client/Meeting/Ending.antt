-- ===== src/Client/Meeting/Ending.antt =====
-- client/src/widget/meeting/meeting_widget.cpp: what the end of a session leaves.
use cloud_meeting_client.Client.Meeting.{not_in_meeting, disconnect_call, MeetingWidget, Effect}
use cloud_meeting_client.Prelude.{
  ◌&&◌, ℕ, if◌then◌else◌, ◌∷◌, List, [], false, suc, ◌≡◌, Bool, true, not, arith, ◌||◌,
}
use cloud_meeting_client.Client.Meeting.Partners.{
  in_meeting, clear_partner, reset_meeting_ui, update_meeting_info, meeting_labels,
}
use cloud_meeting_client.Client.Meeting.Session.{end_meeting_session}

-- What of a meeting is left: no members, no chat, no names to complete, no room, no server.
pub record IsEmptied (w : MeetingWidget) : Type 0 where
  pub partner : w.partner ≡ []
  pub chat : w.chat ≡ []
  pub iplist : w.iplist ≡ []
  pub out_of_meeting : in_meeting w ≡ false
  pub room_no : w.room_no ≡ 0
  pub server_addr : w.server_addr ≡ []
  pub status : w.info.status ≡ not_in_meeting
  pub count : w.info.members ≡ 0
  pub buttons : (w.open_audio_disabled && w.open_vedio_disabled && w.sendmsg_disabled) ≡ true

module _ (Image : Type 0) where
  unfoldable pub is_disconnect : Effect Image → Bool
  is_disconnect disconnect_call = true
  is_disconnect _ = false

  unfoldable pub disconnects : List (Effect Image) → ℕ
  disconnects [] = 0
  disconnects (e ∷ es) = if is_disconnect e then suc (disconnects es) else disconnects es

  cleared :
      (w : MeetingWidget)
      → ((clear_partner {Image = Image} w).0.partner ≡ [])
        × (disconnects (clear_partner {Image = Image} w).1 ≡ 0)
  unfolding clear_partner disconnects is_disconnect
  cleared w = ground arith

  -- Ending a session leaves nothing of the meeting, gives up an attempt to connect, and asks for the
  -- connection to be closed, once, exactly when there is a network and a session or an attempt;
  -- then the session is ending and no longer there, and otherwise these two stay.
  pub end_meeting_session_lem :
      (local_ip : ℕ) (w : MeetingWidget)
      → let (out, effects) = end_meeting_session {Image = Image} local_ip w in
        let disconnecting = w.has_network && (w.session_active || w.connecting) in
        IsEmptied out
        × (out.connecting ≡ false)
        × (disconnects effects ≡ (if disconnecting then 1 else 0))
        × (out.session_ending ≡ (w.session_ending || disconnecting))
        × (out.session_active ≡ (w.session_active && not disconnecting))
  unfolding end_meeting_session reset_meeting_ui update_meeting_info meeting_labels clear_partner
      disconnects is_disconnect
  end_meeting_session_lem local_ip w = (
    record {
      partner = ground arith;
      chat = ground arith;
      iplist = ground arith;
      out_of_meeting = ground arith;
      room_no = ground arith;
      server_addr = ground arith;
      status = ground arith;
      count = ground arith;
      buttons = ground arith;
    },
    ground arith,
    ground arith,
    ground arith,
    ground arith,
  )
