-- ===== src/Client/System/Closing.antt =====
-- client/src/widget/meeting/meeting_controller.cpp: the window is closed while a session is there.
use cloud_meeting_client.Client.Meeting.{
  disconnect_call, start_timer, ConnectRequest, Effect, request_connect, MeetingWidget, camera,
  end_video, stop_audio, clear_displays, stop_play, clear_pending_images,
}
use cloud_meeting_client.Client.Meeting.Events.{
  closed, Outside, network_disconnected, timeout, handle,
}
use cloud_meeting_client.Prelude.{
  ◌++◌, false, [], refl, List, ◌≡◌, Bool, All, ◌∷◌, true, ℕ, sym, append_assoc, inr, inl, ap,
  Bool-cases, arith, none, not, ◌&&◌, some, Option,
}
use cloud_meeting_client.Client.Codec.{Qt}
use cloud_meeting_client.Client.Link.{
  Attempt, Network, on_disconnected, disconnect_on_io_thread, disconnect_from_host, destroy_socket,
  connection_local_ip, disconnect_connection,
}
use cloud_meeting_client.Client.System.{
  perform_all, perform, disconnect_from_host_slot, run, step, Client, Threads, put_back,
}
use cloud_meeting_client.Client.Meeting.Session.{
  close_event, end_meeting_session, on_network_disconnected_slot, on_timeout, flush_pending_connect,
}
use cloud_meeting_client.Client.Queues.Order.{to_list}
use cloud_meeting_client.Client.Meeting.Partners.{
  reset_meeting_ui, update_meeting_info, clear_partner,
}
use cloud_meeting_client.Server.Connection.{is_empty}
use cloud_meeting_client.Client.Hub.{signal_send_stop, clear_queues, enqueue_send}
use cloud_meeting_client.Client.Queues.{clear, clear_all, empty_queue}

abbrev pub is_none : {A : Type 0} → Option A → Bool
is_none none = true
is_none (some x) = false

-- A network after which a session can begin anew. A queue is empty where its lock was got, and that for
-- sending where no superseded worker has a message to put back.
pub record IsOffline {Image : Type 0} (t : Threads Image) (net : Network Image) : Type 0 where
  pub socket : net.connection.socket ≡ false
  pub parser : net.connection.parser ≡ []
  pub has_local_ip : net.connection.has_local_ip ≡ false
  pub send_running : net.hub.send_running ≡ false
  pub no_sends :
      (t.send_locked && is_none t.in_hand && not (is_empty (to_list net.hub.send_queue))) ≡ false
  pub no_audio : (t.audio_locked && not (is_empty net.hub.recv_audio_queue)) ≡ false

module _ (qt : Qt) (attempt : ConnectRequest → Attempt) (outside : Outside)
    (threads : Effect qt.Image → Threads qt.Image) where
  open qt use {Image}

  perform_all-append :
      (es fs : List (Effect Image)) (net : Network Image)
      → perform_all qt attempt outside threads (es ++ fs) net ≡ (
          let (next, events) = perform_all qt attempt outside threads es net in
          let (last, more) = perform_all qt attempt outside threads fs next in
          (last, events ++ more))
  unfolding perform_all
  perform_all-append [] fs net = refl
  perform_all-append (e ∷ es) fs net =
      let (next, events) = perform qt attempt outside (threads e) e net in
      let (last, more) = perform_all qt attempt outside threads es next in
      rw (perform_all-append es fs next) (
        ap (λ out. ((perform_all qt attempt outside threads fs last).0, out))
          (sym (append_assoc events more (perform_all qt attempt outside threads fs last).1)))

  -- Effects that lead to no event.
  quiet : Effect Image → Bool
  quiet (request_connect r) = false
  quiet disconnect_call = false
  quiet start_timer = false
  quiet _ = true

  closing_effects :
      (local_ip : ℕ) (w : MeetingWidget)
      → w.has_network ≡ true
      → w.session_active ≡ true
      → w.session_ending ≡ false
      → (before : List (Effect Image)) × ((close_event local_ip w).1
          ≡ before ++ disconnect_call ∷ start_timer ∷ [])
        × All (λ e. quiet e ≡ true) before
  unfolding close_event end_meeting_session reset_meeting_ui update_meeting_info clear_partner quiet
  closing_effects local_ip w n a e = elim (Bool-cases (is_empty w.partner)) [
    | inl m ↦ (camera end_video ∷ stop_audio ∷ [], ground arith, (refl, (refl, tt)))
    | inr m ↦ (
      camera end_video
          ∷ stop_audio
          ∷ camera clear_displays
          ∷ stop_audio
          ∷ stop_play
          ∷ clear_pending_images
          ∷ [],
      ground arith,
      (refl, (refl, (refl, (refl, (refl, (refl, tt)))))),
    )
  ]

  perform_quiet :
      (es : List (Effect Image)) (net : Network Image)
      → All (λ e. quiet e ≡ true) es
      → (perform_all qt attempt outside threads es net).1 ≡ []
  unfolding perform_all perform quiet
  perform_quiet [] net h = refl
  perform_quiet (e ∷ es) net (q, h) =
      let first : (perform qt attempt outside (threads e) e net).1 ≡ [] = no_event e q in
      rw (first, perform_quiet es (perform qt attempt outside (threads e) e net).0 h) refl
    where
      no_event :
          (e : Effect Image)
          → quiet e ≡ true
          → (perform qt attempt outside (threads e) e net).1 ≡ []
      no_event (request_connect r) q = absurd (ground (arith, q))
      no_event disconnect_call q = absurd (ground (arith, q))
      no_event start_timer q = absurd (ground (arith, q))
      no_event _ q = refl

  hung_up :
      (net : Network Image)
      → let (last, events) =
          perform_all qt attempt outside threads (disconnect_call ∷ start_timer ∷ []) net in
        IsOffline (threads disconnect_call) last × (events ≡ network_disconnected ∷ timeout ∷ [])
  unfolding perform_all perform disconnect_connection disconnect_from_host_slot on_disconnected
      disconnect_on_io_thread disconnect_from_host signal_send_stop destroy_socket clear_queues
      put_back enqueue_send clear clear_all empty_queue
  hung_up net = (
    record {
      socket = refl;
      parser = refl;
      has_local_ip = refl;
      send_running = refl;
      no_sends = ground arith;
      no_audio = ground arith;
    },
    refl,
  )

  closing_performed :
      (local_ip : ℕ) (w : MeetingWidget) (net : Network Image)
      → w.has_network ≡ true
      → w.session_active ≡ true
      → w.session_ending ≡ false
      → let (last, events) =
          perform_all qt attempt outside threads (close_event local_ip w).1 net in
        IsOffline (threads disconnect_call) last × (events ≡ network_disconnected ∷ timeout ∷ [])
  closing_performed local_ip w net n a e =
      let (before, split, silent) = closing_effects local_ip w n a e in
      let (offline, events) = hung_up (perform_all qt attempt outside threads before net).0 in
      rw
        (
          split,
          perform_all-append before (disconnect_call ∷ start_timer ∷ []) net,
          perform_quiet before net silent,
        )
        (offline, events)

  nothing_pending :
      (local_ip : ℕ) (w : MeetingWidget)
      → (close_event {Image = Image} local_ip w).0.pending_connect ≡ none
  unfolding close_event end_meeting_session reset_meeting_ui update_meeting_info clear_partner
  nothing_pending local_ip w = ground arith

  -- What the two events find and leave.
  settled :
      (local_ip later_ip : ℕ) (w : MeetingWidget)
      → w.pending_connect ≡ none
      → let (v, effects) = on_network_disconnected_slot {Image = Image} local_ip w in
        (effects ≡ [])
        × (v.session_active ≡ false)
        × (v.session_ending ≡ false)
        × (v.connecting ≡ false)
        × (on_timeout {Image = Image} later_ip v ≡ (v, []))
  unfolding on_network_disconnected_slot on_timeout update_meeting_info flush_pending_connect
  settled local_ip later_ip w p = rw p (refl, refl, refl, refl, refl)

  -- When the window is closed while a session is there and not ending, with a network, then after three
  -- events - the closing, the end of the connection, the timer - none waits, the window has no
  -- session, none that ends and no attempt to connect, and the network is offline: there is no socket,
  -- the parser's buffer is empty, the address is not known, and the worker for sending is told to stop.
  -- The queue of received audio is empty if its lock was got for clearing it, and that for sending if its
  -- lock was got and no superseded worker has a message in hand. Here no other thread reads or sends
  -- between the three events.
  pub run-closed :
      (client : Client Image)
      → client.window.has_network ≡ true
      → client.window.session_active ≡ true
      → client.window.session_ending ≡ false
      → let (last, waiting) = run qt attempt outside threads 3 (closed ∷ []) client in
        (waiting ≡ [])
        × (last.window.session_active ≡ false)
        × (last.window.session_ending ≡ false)
        × (last.window.connecting ≡ false)
        × IsOffline (threads disconnect_call) last.network
  unfolding run step handle perform_all close_event
  run-closed client n a e =
      let ip = connection_local_ip client.network.connection in
      let (offline, events) = closing_performed ip client.window client.network n a e in
      let v = (close_event {Image = Image} ip client.window).0 in
      let net =
        (perform_all qt attempt outside threads (close_event ip client.window).1
          client.network).0 in
      let (silent, active, ending, connecting, still) =
        settled (connection_local_ip net.connection) (connection_local_ip net.connection) v
          (nothing_pending ip client.window) in
      rw (events, silent, still) (refl, active, ending, connecting, offline)
