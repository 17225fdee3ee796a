-- ===== src/Client/MainWindow/Connecting.antt =====
-- client/src/widget/main_window.cpp: the button that tries a connection.
use cloud_meeting_client.Prelude.{
  ◌≡◌, Bytes, if◌then◌else◌, false, List, ℕ, ◌++◌, Bool, [], ◌∷◌, true, arith, ◌||◌, not, refl, inl,
  Bool-cases, inr,
}
use cloud_meeting_client.Client.MainWindow.{
  connect_to_server_button_clicked, MainWindow, tell_main, on_connect_server_finished, warn,
  connect_failed,
}
use cloud_meeting_client.Client.Meeting.Session.{
  request_connect_to_server_slot, on_connect_finished_slot, discard_connect,
}
use cloud_meeting_client.Client.Meeting.{
  MeetingWidget, Effect, ConnectRequest, no_action, request_connect, disconnect_call,
  connect_server_finished,
}
use cloud_meeting_client.Server.Connection.{is_empty}

module _ (Image : Type 0) where
  -- The click, and then the result of the attempt, which the meeting window gets and answers.
  unfoldable pub tried :
      (Bytes → Bytes)
      → (Bytes → Bytes → Bool)
      → (Bytes → ℕ)
      → ℕ
      → Bool
      → Bytes
      → Bytes
      → MainWindow
      → MeetingWidget
      → MainWindow × MeetingWidget × List (Effect Image)
  tried trimmed validate to_int local_ip good ip port main w =
      let (next, clicked, effects) =
        connect_to_server_button_clicked {Image = Image} trimmed validate ip port main w in
      let request : ConnectRequest = record {
        ip = trimmed ip;
        port = trimmed port;
        action = no_action;
        room_no = [];
      } in
      let (after, answers) =
        on_connect_finished_slot {Image = Image} to_int local_ip good request clicked in
      let (last, end, more) = tell_main local_ip answers next after in (last, end, effects ++ more)

  clicked_lem :
      (trimmed : Bytes → Bytes) (validate : Bytes → Bytes → Bool) (ip port : Bytes)
      (main : MainWindow) (w : MeetingWidget)
      → (w.is_visible ≡ false) × (w.connecting ≡ false) × (w.session_ending ≡ false)
      → (w.has_network ≡ true) × (w.has_controller ≡ true)
      → (is_empty (trimmed ip) ≡ false)
        × (is_empty (trimmed port) ≡ false)
        × (validate (trimmed ip) (trimmed port) ≡ true)
      → let request : ConnectRequest = record {
        ip = trimmed ip;
        port = trimmed port;
        action = no_action;
        room_no = [];
      } in
        let out =
          connect_to_server_button_clicked {Image = Image} trimmed validate ip port main w in
        (out.0 ≡ main)
        × (out.1 ≡ record w { connecting = true })
        × (out.2 ≡ request_connect request ∷ [])
  unfolding connect_to_server_button_clicked request_connect_to_server_slot
  clicked_lem trimmed validate ip port main w (v, k, e) (n, c) (i, p, h) =
      let way : (not w.has_network || not w.has_controller || w.connecting) ≡ false =
        ground arith in
      (simp (v, i, p, h) refl, simp (v, i, p, h, way, e) refl, simp (v, i, p, h, way, e) refl)

  discarded :
      (to_int : Bytes → ℕ) (local_ip : ℕ) (good : Bool) (request : ConnectRequest)
      (w : MeetingWidget)
      → w.is_visible ≡ false
      → w.has_network ≡ true
      → (on_connect_finished_slot {Image = Image} to_int local_ip good request w).1
        ≡ (if good then disconnect_call ∷ [] else []) ++ connect_server_finished false request ∷ []
  unfolding on_connect_finished_slot discard_connect
  discarded to_int local_ip true request w v n = ground arith
  discarded to_int local_ip false request w v n = ground arith

  -- When the meeting window is hidden and idle and the address typed is valid, the button asks for a
  -- connection; but also when the attempt succeeds, a box tells of a failure, the address of the
  -- main window stays as it was, and the connection that was made is closed again.
  pub tried_lem :
      (trimmed : Bytes → Bytes) (validate : Bytes → Bytes → Bool) (to_int : Bytes → ℕ)
      (local_ip : ℕ) (good : Bool) (ip port : Bytes) (main : MainWindow) (w : MeetingWidget)
      → (w.is_visible ≡ false) × (w.connecting ≡ false) × (w.session_ending ≡ false)
      → (w.has_network ≡ true) × (w.has_controller ≡ true)
      → (is_empty (trimmed ip) ≡ false)
        × (is_empty (trimmed port) ≡ false)
        × (validate (trimmed ip) (trimmed port) ≡ true)
      → let (last, end, effects) = tried trimmed validate to_int local_ip good ip port main w in
        (last ≡ warn connect_failed main)
        × (effects
            ≡ request_connect
                (record { ip = trimmed ip; port = trimmed port; action = no_action; room_no = [] })
              ∷ (if good then disconnect_call ∷ [] else []))
  unfolding tried tell_main on_connect_server_finished
  tried_lem trimmed validate to_int local_ip good ip port main w (v, k, e) (n, c) (i, p, h) =
      let (m, u, f) = clicked_lem trimmed validate ip port main w (v, k, e) (n, c) (i, p, h) in
      let request : ConnectRequest = record {
        ip = trimmed ip;
        port = trimmed port;
        action = no_action;
        room_no = [];
      } in
      let d = discarded to_int local_ip good request (record w { connecting = true }) v n in
      elim (Bool-cases good) [
        | inl g ↦ (rw (m, u, d, g) refl, rw (m, u, f, d, g) refl)
        | inr g ↦ (rw (m, u, d, g) refl, rw (m, u, f, d, g) refl)
      ]
