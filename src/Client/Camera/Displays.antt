-- ===== src/Client/Camera/Displays.antt =====
-- client/src/message/video/cameravideo.cpp and client/src/widget/meeting/meeting_widget.cpp: what the
-- labels of the members show.
use cloud_meeting_client.Client.Meeting.{
  skip, stop_audio, disconnect_call, start_timer, MeetingWidget, Slot, ◌>>◌, Partner, modify, emit,
  ConnectRequest, camera, CameraCall, address_title,
}
use cloud_meeting_client.Client.Camera.{
  CameraVideo, Shown, call_camera, avatar, picture, blank_all, assign, show_avatar_for_ip,
  show_image_for_ip, show_main_avatar, show_main_image, add_partner_display, remove_partner_display,
  clear_all_partner_displays, refresh_main_for_ip, end_video, stop_camera, set_local_ip,
  set_main_ip,
}
use cloud_meeting_client.Client.Camera.Session.{run_calls, run_calls-++}
use cloud_meeting_client.Client.Meeting.Partners.{
  add_partner, has_partner, remove_partner, close_img, on_recv_ip_slot, clear_partner, alone_again,
  update_meeting_info, reset_meeting_ui,
}
use cloud_meeting_client.Prelude.{
  ◌&&◌, ◌||◌, ◌==◌, if◌then◌else◌, lookup-erase, ◌∷◌, emplace, put, refl, [], none, lookup, ℕ,
  lookup-put, Bool, arith, Map, lookup-emplace, ◌≡◌, false, some, inl, inr, true, Bool-cases,
}
use cloud_meeting_client.Client.Meeting.Messages.{show_self}
use cloud_meeting_client.Client.Meeting.Session.{
  end_meeting_session, request_connect_to_server_slot, on_network_disconnected_slot, on_timeout,
  on_disconnect_server_slot, flush_pending_connect,
}

lookup-blank_all :
    {Image : Type 0} (k : ℕ) (m : Map (Shown Image))
    → lookup k (blank_all m) ≡ (elim (lookup k m) [ none ↦ none | some s ↦ some Shown.nothing ])
lookup-blank_all k [] = refl
lookup-blank_all k ((i, s) ∷ m) = ground (arith, lookup-blank_all k m)

lookup-assign :
    {V : Type 0} (k j : ℕ) (v : V) (m : Map V)
    → lookup j (put k v (emplace k v m)) ≡ (if k == j then some v else lookup j m)
lookup-assign k j v m = ground (arith, lookup-put k j v (emplace k v m), lookup-emplace k j v m)

module _ (Image : Type 0) (is_null : Image → Bool) (j : ℕ) where
  abbrev pub last_shown : CameraVideo Image → Shown Image
  last_shown c = elim (lookup j c.last_images) [ none ↦ avatar | some image ↦ picture image ]

  -- The label of a member shows its last image or else the avatar, and there is none of another
  -- address. The camera's object and the window mean the same member by the main one.
  abbrev pub Shows : MeetingWidget → CameraVideo Image → Type 0
  Shows w c =
      (lookup j c.partner_displays ≡ (if has_partner j w then some (last_shown c) else none))
      × (c.main_ip ≡ w.mainip)

  abbrev pub Takes :
      (MeetingWidget → CameraVideo Image → Type 0)
      → (MeetingWidget → CameraVideo Image → Type 0)
      → Slot Image
      → Type 0
  Takes P Q f =
      (w : MeetingWidget) (c : CameraVideo Image) → P w c → Q (f w).0 (run_calls is_null (f w).1 c)

  abbrev pub Keeps : Slot Image → Type 0
  Keeps = Takes Shows Shows

  Takes-then :
      (P Q R : MeetingWidget → CameraVideo Image → Type 0) (f g : Slot Image)
      → Takes P Q f
      → Takes Q R g
      → Takes P R (f >> g)
  Takes-then P Q R f g kf kg w c h =
      rw (run_calls-++ is_null (f w).1 (g (f w).0).1 c)
        (kg (f w).0 (run_calls is_null (f w).1 c) (kf w c h))

  pub keep_then : (f g : Slot Image) → Keeps f → Keeps g → Keeps (f >> g)
  keep_then = Takes-then Shows Shows Shows

  pub Keeps-if : (b : Bool) (f g : Slot Image) → Keeps f → Keeps g → Keeps (if b then f else g)
  Keeps-if true f g kf kg = kf
  Keeps-if false f g kf kg = kg

  pub show_avatar-Shows :
      (ip : ℕ) (w : MeetingWidget) (c : CameraVideo Image)
      → Shows w c
      → Shows w (show_avatar_for_ip ip c)
  unfolding show_avatar_for_ip show_main_avatar
  show_avatar-Shows ip w c h =
      ground (arith, lookup-put ip j avatar c.partner_displays, lookup-erase ip j c.last_images)

  add_display-Shows :
      (ip : ℕ) (p : Partner) (w : MeetingWidget) (c : CameraVideo Image)
      → lookup ip w.partner ≡ none
      → Shows w c
      → Shows (record w { partner = emplace ip p w.partner }) (add_partner_display ip c)
  unfolding add_partner_display show_avatar_for_ip show_main_avatar
  add_display-Shows ip p w c e h = ground (
    arith,
    lookup-emplace ip j p w.partner,
    lookup-put ip j avatar (assign ip Shown.nothing c.partner_displays),
    lookup-assign ip j Shown.nothing c.partner_displays,
    lookup-erase ip j c.last_images,
  )

  pub add_partner-Keeps : (ip : ℕ) → Keeps (add_partner ip)
  unfolding add_partner run_calls call_camera
  add_partner-Keeps ip w c h = elim (Bool-cases (has_partner ip w)) [
    | inl e ↦ rw e h
    | inr e ↦ rw e (ground (arith, add_display-Shows ip (record { selected = false }) w c))
  ]

  pub remove_partner-Keeps : (ip : ℕ) → Keeps (remove_partner ip)
  unfolding remove_partner alone_again run_calls call_camera remove_partner_display
  remove_partner-Keeps ip w c h =
      ground (arith, lookup-erase ip j w.partner, lookup-erase ip j c.partner_displays)

  pub close_img-Keeps : (ip : ℕ) → Keeps (close_img ip)
  unfolding close_img run_calls call_camera
  close_img-Keeps ip w c h = ground (arith, show_avatar-Shows ip w c h)

  pub show_image-Shows :
      (ip : ℕ) (image : Image) (w : MeetingWidget) (c : CameraVideo Image)
      → Shows w c
      → Shows w (show_image_for_ip is_null ip image c)
  unfolding show_image_for_ip show_main_image
  show_image-Shows ip image w c h = ground (
    arith,
    lookup-put ip j (picture image) c.partner_displays,
    lookup-assign ip j image c.last_images,
  )

  pub on_recv_ip-Keeps : (ip : ℕ) → Keeps (on_recv_ip_slot ip)
  unfolding on_recv_ip_slot run_calls call_camera refresh_main_for_ip show_main_image
      show_main_avatar
  on_recv_ip-Keeps ip w c h = ground (
    arith,
    lookup-put w.mainip j (record { selected = false }) w.partner,
    lookup-put ip j (record { selected = true })
        (put w.mainip (record { selected = false }) w.partner),
  )

  abbrev main_self : ℕ → Slot Image
  main_self local_ip =
      modify (λ v. record v { mainip = local_ip })
      >> emit (camera (CameraCall.set_local_ip local_ip))
      >> emit (camera (CameraCall.set_main_ip local_ip))
      >> modify (λ v. record v { title = address_title local_ip })
      >> emit (camera CameraCall.show_main_avatar)

  main_self-Keeps : (local_ip : ℕ) → Keeps (main_self local_ip)
  unfolding run_calls call_camera set_local_ip set_main_ip show_main_avatar
  main_self-Keeps local_ip w c h = ground arith

  pub show_self-Keeps : (local_ip : ℕ) → Keeps (show_self local_ip)
  unfolding show_self run_calls
  show_self-Keeps local_ip w =
      Keeps-if w.has_network (add_partner local_ip >> main_self local_ip) skip
        (keep_then (add_partner local_ip) (main_self local_ip) (add_partner-Keeps local_ip)
          (main_self-Keeps local_ip))
        (λ v c h. h) w

  -- Between the end of the video and the removal of the members a label may be empty.
  abbrev Agrees : MeetingWidget → CameraVideo Image → Type 0
  Agrees w c =
      (elim (lookup j c.partner_displays) [ none ↦ false | some s ↦ true ] ≡ has_partner j w)
      × (c.main_ip ≡ w.mainip)

  end_video-Agrees :
      (w : MeetingWidget) (c : CameraVideo Image) → Shows w c → Agrees w (end_video c)
  unfolding end_video stop_camera
  end_video-Agrees w c h = ground (arith, lookup-blank_all j c.partner_displays)

  clear_partner-Shows :
      (w : MeetingWidget) (c : CameraVideo Image)
      → Agrees w c
      → Shows (clear_partner {Image = Image} w).0 (run_calls is_null (clear_partner w).1 c)
  unfolding clear_partner run_calls call_camera clear_all_partner_displays
  clear_partner-Shows w c h = ground arith

  pub update-Keeps : (local_ip : ℕ) → Keeps (update_meeting_info local_ip)
  unfolding update_meeting_info run_calls
  update-Keeps local_ip w c h = h

  reset-Keeps : (local_ip : ℕ) → Keeps (reset_meeting_ui local_ip)
  unfolding reset_meeting_ui update_meeting_info run_calls
  reset-Keeps local_ip w c h = h

  abbrev opening : Slot Image
  opening =
      emit (camera CameraCall.end_video)
      >> emit stop_audio
      >> modify (λ v. record v { createmeet = false; joinmeet = false; connecting = false })

  abbrev closing : Bool → ℕ → Slot Image
  closing disconnects local_ip =
      reset_meeting_ui local_ip
      >> (if disconnects
          then modify (λ v. record v { session_ending = true })
            >> emit disconnect_call
            >> modify (λ v. record v { session_active = false })
            >> emit start_timer
          else skip)

  closing-Keeps : (disconnects : Bool) (local_ip : ℕ) → Keeps (closing disconnects local_ip)
  unfolding reset_meeting_ui update_meeting_info run_calls
  closing-Keeps true local_ip w c h = h
  closing-Keeps false local_ip w c h = h

  opening-Agrees : Takes Shows Agrees opening
  unfolding run_calls call_camera
  opening-Agrees w c h = end_video-Agrees w c h

  pub end_meeting_session-Keeps : (local_ip : ℕ) → Keeps (end_meeting_session local_ip)
  unfolding end_meeting_session
  end_meeting_session-Keeps local_ip w =
      Takes-then Shows Agrees Shows opening
        (clear_partner >> closing (w.has_network && (w.session_active || w.connecting)) local_ip)
        opening-Agrees
        (Takes-then Agrees Shows Shows clear_partner
          (closing (w.has_network && (w.session_active || w.connecting)) local_ip)
          clear_partner-Shows
          (closing-Keeps (w.has_network && (w.session_active || w.connecting)) local_ip))
        w

  pub request-Keeps : (request : ConnectRequest) → Keeps (request_connect_to_server_slot request)
  unfolding request_connect_to_server_slot run_calls
  request-Keeps request w c h = ground arith

  pub on_network_disconnected-Keeps : (local_ip : ℕ) → Keeps (on_network_disconnected_slot local_ip)
  unfolding on_network_disconnected_slot update_meeting_info flush_pending_connect
      request_connect_to_server_slot run_calls
  on_network_disconnected-Keeps local_ip w c h = ground arith

  pub on_timeout-Keeps : (local_ip : ℕ) → Keeps (on_timeout local_ip)
  unfolding on_timeout update_meeting_info flush_pending_connect request_connect_to_server_slot
      run_calls
  on_timeout-Keeps local_ip w c h = ground arith

  pub on_disconnect_server-Keeps : (local_ip : ℕ) → Keeps (on_disconnect_server_slot local_ip)
  unfolding on_disconnect_server_slot update_meeting_info run_calls
  on_disconnect_server-Keeps local_ip w c h = ground arith
