-- ===== src/Client/Meeting/Waiting.antt =====
-- client/src/widget/meeting/meeting_widget.cpp: requests to connect that wait for the end of a
-- session.
use cloud_meeting_client.Client.Meeting.{
  ◌>>◌, Effect, MeetingWidget, disconnect_call, start_timer, ConnectRequest, request_connect, Slot,
  skip,
}
use cloud_meeting_client.Prelude.{
  All, false, [], ◌≡◌, some, ◌∷◌, List, true, Bool, refl, Option, ◌++◌, arith, ℕ, none, subst, sym,
  append-nil, ◌||◌, not,
}
use cloud_meeting_client.Client.Meeting.Session.{
  request_connect_to_server_slot, on_network_disconnected_slot, close_event, end_meeting_session,
  flush_pending_connect,
}
use cloud_meeting_client.Client.Meeting.Partners.{
  update_meeting_info, clear_partner, reset_meeting_ui,
}

abbrev last_of : Option ConnectRequest → List ConnectRequest → Option ConnectRequest
last_of old [] = old
last_of old (r ∷ rs) = last_of (some r) rs

last_of-snoc :
    (old : Option ConnectRequest) (rs : List ConnectRequest) (r : ConnectRequest)
    → last_of old (rs ++ r ∷ []) ≡ some r
last_of-snoc old [] r = refl
last_of-snoc old (x ∷ rs) r = last_of-snoc (some x) rs r

module _ {Image : Type 0} where
  unfoldable pub request_all : List ConnectRequest → Slot Image
  request_all [] = skip
  request_all (r ∷ rs) = request_connect_to_server_slot r >> request_all rs

  -- The effects after which something else calls the window back.
  unfoldable pub is_awaited : Effect Image → Bool
  is_awaited (request_connect r) = true
  is_awaited disconnect_call = true
  is_awaited start_timer = true
  is_awaited _ = false

  abbrev pub Unanswered : List (Effect Image) → Type 0
  Unanswered = All (λ e. is_awaited e ≡ false)

  request-deferred :
      (r : ConnectRequest) (w : MeetingWidget)
      → w.has_network ≡ true
      → w.has_controller ≡ true
      → w.session_ending ≡ true
      → w.connecting ≡ false
      → request_connect_to_server_slot {Image = Image} r w
        ≡ (record w { pending_connect = some r }, [])
  unfolding request_connect_to_server_slot
  request-deferred r w n c e k =
      let open_way : (not w.has_network || not w.has_controller || w.connecting) ≡ false =
        ground arith in
      rw (open_way, e) refl

  request_all-deferred :
      (rs : List ConnectRequest) (w : MeetingWidget)
      → w.has_network ≡ true
      → w.has_controller ≡ true
      → w.session_ending ≡ true
      → w.connecting ≡ false
      → request_all rs w ≡ (record w { pending_connect = last_of w.pending_connect rs }, [])
  unfolding request_all request_connect_to_server_slot
  request_all-deferred [] w n c e k = refl
  request_all-deferred (r ∷ rs) w n c e k =
      rw
        (
          request-deferred r w n c e k,
          request_all-deferred rs (record w { pending_connect = some r }) n c e k,
        )
        refl

  -- While a session ends and no attempt to connect runs, requests to connect are put off, and when the
  -- connection is closed, the last of them is made, once, and the window is connecting.
  pub request_all-on_network_disconnected :
      (rs : List ConnectRequest) (r : ConnectRequest) (local_ip : ℕ) (w : MeetingWidget)
      → w.has_network ≡ true
      → w.has_controller ≡ true
      → w.session_ending ≡ true
      → w.connecting ≡ false
      → let out = (request_all (rs ++ r ∷ []) >> on_network_disconnected_slot local_ip) w in
        (out.1 ≡ request_connect r ∷ [])
        × (out.0.connecting ≡ true)
        × (out.0.session_ending ≡ false)
        × (out.0.pending_connect ≡ none)
  unfolding on_network_disconnected_slot update_meeting_info flush_pending_connect
      request_connect_to_server_slot
  request_all-on_network_disconnected rs r local_ip w n c e k =
      rw (request_all-deferred (rs ++ r ∷ []) w n c e k, last_of-snoc w.pending_connect rs r)
        (simp (n, c) (refl, refl, refl, refl))

module _ (Image : Type 0) where
  idle_close :
      (local_ip : ℕ) (w : MeetingWidget)
      → w.session_active ≡ false
      → w.session_ending ≡ false
      → w.connecting ≡ false
      → let out = close_event {Image = Image} local_ip w in
        (out.0.session_ending ≡ true)
        × (out.0.connecting ≡ false)
        × (out.0.has_network ≡ w.has_network)
        × (out.0.has_controller ≡ w.has_controller)
        × Unanswered {Image = Image} out.1
  unfolding close_event end_meeting_session clear_partner reset_meeting_ui update_meeting_info
      is_awaited
  idle_close local_ip w a e k = ground arith

  -- In a window without a session or an attempt to connect, closing starts nothing whose end the window
  -- is told of and yet leaves the session ending, so that every later request to connect is put off
  -- and none is made.
  pub close_event-request_all :
      (local_ip : ℕ) (rs : List ConnectRequest) (w : MeetingWidget)
      → w.has_network ≡ true
      → w.has_controller ≡ true
      → w.session_active ≡ false
      → w.session_ending ≡ false
      → w.connecting ≡ false
      → let out = (close_event {Image = Image} local_ip >> request_all rs) w in
        (out.0.session_ending ≡ true) × Unanswered out.1
  close_event-request_all local_ip rs w n c a e k =
      let v = (close_event {Image = Image} local_ip w).0 in
      let (ending, still, net, con, quiet) = idle_close local_ip w a e k in
      let later =
        request_all-deferred {Image = Image} rs v (cc (net, n)) (cc (con, c)) ending still in
      rw later (
        ending,
        subst Unanswered (sym (append-nil (close_event {Image = Image} local_ip w).1)) quiet,
      )
