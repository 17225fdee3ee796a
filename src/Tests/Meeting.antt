-- ===== src/Tests/Meeting.antt =====
-- The theorems on the meeting window (client/src/widget/meeting) and the main window at concrete windows.
use cloud_meeting_client.Client.Meeting.{
  no_action, create_action, not_in_meeting, not_connected, open_audio_text, open_video_text, ◌>>◌,
  MeetingWidget, ConnectRequest, request_connect, disconnect_call, no_title,
}
use cloud_meeting_client.Client.Meeting.Events.{
  closed, network_disconnected, Outside, Event, connect_requested, handle_all, connect_finished,
  request_message, user_info_message, video_message,
}
use cloud_meeting_client.Prelude.{[], Bytes, false, refl, true, ◌∷◌, none, inl, ◌≡◌, List}
use cloud_meeting_client.Client.Meeting.Invariant.{handle_all-IsConsistent}
use cloud_meeting_client.Client.Meeting.Consistency.{IsConsistent}
use cloud_meeting_client.Client.Meeting.Partners.{has_partner}
use cloud_meeting_client.Client.Meeting.Waiting.{
  request_all, Unanswered, close_event-request_all, request_all-on_network_disconnected,
}
use cloud_meeting_client.Client.Meeting.Session.{close_event, on_network_disconnected_slot}
use cloud_meeting_client.Client.Meeting.Chat.{message_item}
use cloud_meeting_client.Client.Meeting.Members.{
  receive_message, after_message, receive_message-has_partner,
}
use cloud_meeting_client.Client.Message.{
  partner_exit_message, message, create_meeting_response_message, partner_join2_message,
  recv_image_message,
}
use cloud_meeting_client.Client.MainWindow.Connecting.{tried, tried_lem}
use cloud_meeting_client.Client.MainWindow.{warn, connect_failed}

abbrev pub idle_window : MeetingWidget
idle_window = record {
  has_network = true;
  has_controller = true;
  is_visible = true;
  createmeet = false;
  joinmeet = false;
  session_active = false;
  session_ending = false;
  connecting = false;
  pending_connect = none;
  partner = [];
  mainip = 0;
  iplist = [];
  room_no = 0;
  server_addr = [];
  open_audio_disabled = true;
  open_vedio_disabled = true;
  sendmsg_disabled = true;
  open_audio_label = open_audio_text;
  open_vedio_label = open_video_text;
  title = no_title;
  info = record {
    status = not_in_meeting;
    room = none;
    members = 0;
    local_ip = none;
    speaker = none;
    server = not_connected;
  };
  chat = [];
}

abbrev ending_window : MeetingWidget
ending_window = record idle_window { session_ending = true }

abbrev pub meeting_window : MeetingWidget
meeting_window = record idle_window {
  createmeet = true;
  session_active = true;
  partner = (7, record { selected = false }) ∷ (9, record { selected = true }) ∷ [];
  chat = message_item 50 (b'h' ∷ []) 9 false ∷ [];
}

abbrev pub here : Outside
here = record {
  local_ip = 7;
  camera_running = false;
  to_int = λ text. 12;
  show_address = λ ip. ip ∷ [];
  cur_time = 200;
}

abbrev create : ConnectRequest
create = record { ip = b'1' ∷ []; port = b'2' ∷ []; action = create_action; room_no = [] }

abbrev try_only : ConnectRequest
try_only = record { ip = b'3' ∷ []; port = b'4' ∷ []; action = no_action; room_no = [] }

abbrev busy_day : List (Event Bytes)
busy_day =
    connect_requested create
    ∷ connect_finished true create
    ∷ request_message (message (create_meeting_response_message 5))
    ∷ user_info_message (record { ip = 9; content = partner_join2_message (9 ∷ 9 ∷ []) })
    ∷ video_message (record { ip = 4; content = recv_image_message (1 ∷ []) })
    ∷ closed
    ∷ connect_requested try_only
    ∷ network_disconnected
    ∷ []

idle_window-IsConsistent : IsConsistent idle_window
idle_window-IsConsistent = (refl, tt, refl, inl refl)

handle_all-IsConsistent_example : IsConsistent (handle_all here busy_day idle_window).0
handle_all-IsConsistent_example =
    handle_all-IsConsistent Bytes here busy_day idle_window idle_window-IsConsistent

receive_message-has_partner_example :
    has_partner 9
      (receive_message Bytes here
        (record { ip = 9; content = partner_exit_message })
        meeting_window).0
    ≡ after_message Bytes 7 partner_exit_message 9 false 9 true
receive_message-has_partner_example =
    receive_message-has_partner Bytes here (record { ip = 9; content = partner_exit_message }) 9
      meeting_window refl

request_all-on_network_disconnected_example :
    let out =
      (request_all {Image = Bytes} (try_only ∷ create ∷ []) >> on_network_disconnected_slot 7)
        ending_window in
    (out.1 ≡ request_connect create ∷ [])
    × (out.0.connecting ≡ true)
    × (out.0.session_ending ≡ false)
    × (out.0.pending_connect ≡ none)
request_all-on_network_disconnected_example =
    request_all-on_network_disconnected (try_only ∷ []) create 7 ending_window refl refl refl refl

close_event-request_all_example :
    let out = (close_event {Image = Bytes} 7 >> request_all (create ∷ try_only ∷ [])) idle_window in
    (out.0.session_ending ≡ true) × Unanswered out.1
close_event-request_all_example =
    close_event-request_all Bytes 7 (create ∷ try_only ∷ []) idle_window refl refl refl refl refl

tried_lem_example :
    let (last, end, effects) =
      tried Bytes
        (λ t. t)
        (λ ip port. true)
        (λ t. 0)
        7
        true
        (b'h' ∷ [])
        (b'9' ∷ [])
        (record { ip = []; port = []; boxes = [] })
        (record idle_window { is_visible = false }) in
    (last ≡ warn connect_failed (record { ip = []; port = []; boxes = [] }))
    × (effects
        ≡ request_connect
            (record { ip = b'h' ∷ []; port = b'9' ∷ []; action = no_action; room_no = [] })
          ∷ disconnect_call
          ∷ [])
tried_lem_example =
    tried_lem Bytes (λ t. t) (λ ip port. true) (λ t. 0) 7 true (b'h' ∷ []) (b'9' ∷ [])
      (record { ip = []; port = []; boxes = [] }) (record idle_window { is_visible = false })
      (refl, refl, refl) (refl, refl) (refl, refl, refl)
