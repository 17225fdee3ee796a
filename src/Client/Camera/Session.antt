-- ===== src/Client/Camera/Session.antt =====
-- client/src/widget/meeting/meeting_widget.cpp with client/src/message/video/cameravideo.cpp: the
-- window's slots with the calls on the camera's object that they make.
use cloud_meeting_client.Client.Meeting.{MeetingWidget, Effect, camera}
use cloud_meeting_client.Client.Meeting.Events.{Event, Outside, handle, frame_captured}
use cloud_meeting_client.Client.Camera.{CameraVideo, call_camera, camera_image_capture}
use cloud_meeting_client.Prelude.{Bool, List, [], ◌∷◌, ◌++◌, ◌≡◌, refl}

-- An event of the window, or a frame that the sink passes on: whether it is valid, and its image.
pub data Input (Image : Type 0) : Type 0 where
  window : Event Image → Input Image
  frame : Bool → Image → Input Image

module _ {Image : Type 0} (is_null : Image → Bool) where
  -- The calls among the effects; the other effects are not the camera's.
  unfoldable pub run_calls : List (Effect Image) → CameraVideo Image → CameraVideo Image
  run_calls [] c = c
  run_calls (camera call ∷ es) c = run_calls es (call_camera is_null call c)
  run_calls (_ ∷ es) c = run_calls es c

  pub run_calls-++ :
      (es fs : List (Effect Image)) (c : CameraVideo Image)
      → run_calls (es ++ fs) c ≡ run_calls fs (run_calls es c)
  unfolding run_calls
  run_calls-++ [] fs c = refl
  run_calls-++ (camera call ∷ es) fs c = run_calls-++ es fs (call_camera is_null call c)
  run_calls-++ (_ ∷ es) fs c = run_calls-++ es fs c

  -- The window asks the camera's object whether it runs.
  unfoldable pub on_event :
      Outside → Event Image → MeetingWidget × CameraVideo Image → MeetingWidget × CameraVideo Image
  on_event outside e (w, c) =
      let r = handle (record outside { camera_running = c.is_running }) e w in
      (r.0, run_calls r.1 c)

  -- A captured image is shown, and then passed to the window by `frameCaptured`.
  unfoldable pub on_events :
      Outside
      → List (Event Image)
      → MeetingWidget × CameraVideo Image
      → MeetingWidget × CameraVideo Image
  on_events outside [] s = s
  on_events outside (e ∷ es) s = on_events outside es (on_event outside e s)

  abbrev captured : List Image → List (Event Image)
  captured [] = []
  captured (image ∷ images) = frame_captured image ∷ captured images

  unfoldable pub on_input :
      Outside → Input Image → MeetingWidget × CameraVideo Image → MeetingWidget × CameraVideo Image
  on_input outside (window e) s = on_event outside e s
  on_input outside (frame is_valid image) (w, c) =
      let r = camera_image_capture is_null is_valid image c in
      on_events outside (captured r.1) (w, r.0)

  unfoldable pub on_inputs :
      Outside
      → List (Input Image)
      → MeetingWidget × CameraVideo Image
      → MeetingWidget × CameraVideo Image
  on_inputs outside [] s = s
  on_inputs outside (e ∷ es) s = on_inputs outside es (on_input outside e s)
