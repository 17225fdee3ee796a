-- ===== src/Client/MainWindow.antt =====
-- client/src/widget/main_window.cpp: the window with the buttons for creating, joining and connecting,
-- beside the meeting window. Trimming and the check of an address are parameters.
pub mod Connecting
use cloud_meeting_client.Client.Meeting.{
  ◌>>◌, no_action, create_action, join_action, MeetingWidget, Slot, Effect, modify, ConnectRequest,
  connect_server_finished,
}
use cloud_meeting_client.Prelude.{
  [], ◌||◌, ℕ, List, ◌++◌, if◌then◌else◌, Bytes, Bool, ◌∷◌, true, not,
}
use cloud_meeting_client.Client.Meeting.Session.{
  request_connect_to_server_slot, on_disconnect_server_slot,
}
use cloud_meeting_client.Server.Connection.{is_empty}

pub data MainNotice : Type 0 where
  meeting_open no_room_typed no_address bad_address : MainNotice
  connect_failed : MainNotice
  connect_succeeded : Bytes → Bytes → MainNotice

-- The address that meetings are at, and the boxes that were shown, the latest first.
pub record MainWindow : Type 0 where
  pub ip : Bytes
  pub port : Bytes
  pub boxes : List MainNotice

unfoldable pub warn : MainNotice → MainWindow → MainWindow
warn notice main = record main { boxes = notice ∷ main.boxes }

-- A slot that works on both windows.
abbrev pub MainSlot : Type 0 → Type 0
MainSlot Image = MainWindow → MeetingWidget → MainWindow × MeetingWidget × List (Effect Image)

module _ {Image : Type 0} where
  abbrev pub only_main : (MainWindow → MainWindow) → MainSlot Image
  only_main f main w = (f main, w, [])

  abbrev pub on_widget : Slot Image → MainSlot Image
  on_widget f main w = (main, (f w).0, (f w).1)

  unfoldable pub show_widget : Slot Image
  show_widget = modify (λ w. record w { is_visible = true })

  unfoldable pub create_meeting_button_clicked : MainSlot Image
  create_meeting_button_clicked main w =
      if w.is_visible
      then only_main (warn meeting_open) main w
      else on_widget
          (show_widget
            >> request_connect_to_server_slot
                (record { ip = main.ip; port = main.port; action = create_action; room_no = [] }))
          main w

  unfoldable pub join_meeting_button_clicked : Bytes → MainSlot Image
  join_meeting_button_clicked room_no main w =
      if w.is_visible
      then only_main (warn meeting_open) main w
      else if is_empty room_no
      then only_main (warn no_room_typed) main w
      else on_widget
          (show_widget
            >> request_connect_to_server_slot (record {
              ip = main.ip;
              port = main.port;
              action = join_action;
              room_no = room_no;
            }))
          main w

  unfoldable pub connect_to_server_button_clicked :
      (Bytes → Bytes) → (Bytes → Bytes → Bool) → Bytes → Bytes → MainSlot Image
  connect_to_server_button_clicked trimmed validate_ip_port ip port main w =
      if w.is_visible
      then only_main (warn meeting_open) main w
      else if is_empty (trimmed ip) || is_empty (trimmed port)
      then only_main (warn no_address) main w
      else if not (validate_ip_port (trimmed ip) (trimmed port))
      then only_main (warn bad_address) main w
      else on_widget
          (request_connect_to_server_slot
            (record { ip = trimmed ip; port = trimmed port; action = no_action; room_no = [] }))
          main w

  -- The answer of the meeting window to a request.
  unfoldable pub on_connect_server_finished : ℕ → Bool → ConnectRequest → MainSlot Image
  on_connect_server_finished local_ip good request main w = elim request.action [
    | no_action ↦
        if good
        then on_widget (on_disconnect_server_slot local_ip)
            (warn (connect_succeeded request.ip request.port)
              (record main { ip = request.ip; port = request.port }))
            w
        else only_main (warn connect_failed) main w
    | _ ↦ only_main (λ m. if good then m else warn connect_failed m) main w
  ]

  -- The effects of the meeting window that are its signal to the main window reach it in their order.
  unfoldable pub tell_main : ℕ → List (Effect Image) → MainSlot Image
  tell_main local_ip [] main w = (main, w, [])
  tell_main local_ip (connect_server_finished good request ∷ effects) main w =
      let (next, after, more) = on_connect_server_finished local_ip good request main w in
      let (last, end, rest) = tell_main local_ip effects next after in (last, end, more ++ rest)
  tell_main local_ip (effect ∷ effects) main w =
      let (last, end, rest) = tell_main local_ip effects main w in (last, end, effect ∷ rest)
