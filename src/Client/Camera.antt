-- ===== src/Client/Camera.antt =====
-- client/src/message/video/cameravideo.cpp: what the camera's object shows on the labels of the main
-- screen and of the members. An image that a label is given stands for the picture scaled to it.
pub mod Displays
pub mod Messages
pub mod Session
pub mod Events
use cloud_meeting_client.Client.Meeting.{CameraCall}
use cloud_meeting_client.Prelude.{
  ℕ, Bool, Map, if◌then◌else◌, lookup, erase, emplace, put, none, some, not, ◌||◌, ◌==◌, [], List,
  ◌∷◌, true, false,
}

-- What a label shows.
pub data Shown (Image : Type 0) : Type 0 where
  nothing avatar : Shown Image
  picture : Image → Shown Image

-- The two displays of the main screen have one label. `has_main` is set by `setMainTarget`, and
-- `sink_connected` while the frames of the camera are passed on.
pub record CameraVideo (Image : Type 0) : Type 0 where
  pub has_main : Bool
  pub main_label : Shown Image
  pub partner_displays : Map (Shown Image)
  pub last_images : Map Image
  pub local_ip : ℕ
  pub main_ip : ℕ
  pub is_running : Bool
  pub sink_connected : Bool

-- `clear` on every display.
abbrev pub blank_all : {Image : Type 0} → Map (Shown Image) → Map (Shown Image)
blank_all [] = []
blank_all ((k, v) ∷ m) = (k, nothing) ∷ blank_all m

-- `operator[]` on the left of an assignment.
abbrev pub assign : {V : Type 0} → ℕ → V → Map V → Map V
assign k v m = put k v (emplace k v m)

module _ {Image : Type 0} where
  unfoldable pub set_main_target : CameraVideo Image → CameraVideo Image
  set_main_target c = record c { has_main = true }

  unfoldable pub set_local_ip : ℕ → CameraVideo Image → CameraVideo Image
  set_local_ip ip c = record c { local_ip = ip }

  unfoldable pub set_main_ip : ℕ → CameraVideo Image → CameraVideo Image
  set_main_ip ip c = record c { main_ip = ip }

  unfoldable pub show_main_avatar : CameraVideo Image → CameraVideo Image
  show_main_avatar c = if not c.has_main then c else record c { main_label = avatar }

  -- A display that is there shows the avatar.
  unfoldable pub show_avatar_for_ip : ℕ → CameraVideo Image → CameraVideo Image
  show_avatar_for_ip ip c =
      let d = record c {
        last_images = erase ip c.last_images;
        partner_displays = put ip avatar c.partner_displays;
      } in
      if ip == c.main_ip then show_main_avatar d else d

  unfoldable pub add_partner_display : ℕ → CameraVideo Image → CameraVideo Image
  add_partner_display ip c = elim (lookup ip c.partner_displays) [
    | some shown ↦ c
    | none ↦
        show_avatar_for_ip ip (record c { partner_displays = assign ip nothing c.partner_displays })
  ]

  unfoldable pub clear_all_partner_displays : CameraVideo Image → CameraVideo Image
  clear_all_partner_displays c = record c { partner_displays = []; last_images = [] }

  unfoldable pub remove_partner_display : ℕ → CameraVideo Image → CameraVideo Image
  remove_partner_display ip c = record c { partner_displays = erase ip c.partner_displays }

  unfoldable pub start_camera : CameraVideo Image → CameraVideo Image
  start_camera c =
      if c.is_running || not c.has_main
      then c
      else record c { sink_connected = true; is_running = true }

  unfoldable pub stop_camera : CameraVideo Image → CameraVideo Image
  stop_camera c = record c { is_running = false }

  unfoldable pub end_video : CameraVideo Image → CameraVideo Image
  end_video c =
      let d = stop_camera (record c { sink_connected = false }) in
      record d {
        main_label = if d.has_main then nothing else d.main_label;
        partner_displays = blank_all d.partner_displays;
      }

-- `is_null` is `QImage::isNull`.
module _ {Image : Type 0} (is_null : Image → Bool) where
  unfoldable pub show_main_image : Image → CameraVideo Image → CameraVideo Image
  show_main_image image c =
      if not c.has_main || is_null image then c else record c { main_label = picture image }

  unfoldable pub show_image_for_ip : ℕ → Image → CameraVideo Image → CameraVideo Image
  show_image_for_ip ip image c =
      if is_null image
      then c
      else let d = record c {
        last_images = assign ip image c.last_images;
        partner_displays = put ip (picture image) c.partner_displays;
      } in
        if ip == c.main_ip then show_main_image image d else d

  unfoldable pub refresh_main_for_ip : ℕ → CameraVideo Image → CameraVideo Image
  refresh_main_for_ip ip c = elim (lookup ip c.last_images) [
    | some image ↦ show_main_image image (record c { main_ip = ip })
    | none ↦ show_main_avatar (record c { main_ip = ip })
  ]

  -- `is_valid` is `isValid` of the frame, `image` what `toImage` makes of it. A frame that is shown is
  -- the image of the signal `frameCaptured`.
  unfoldable pub camera_image_capture :
      Bool → Image → CameraVideo Image → CameraVideo Image × List Image
  camera_image_capture is_valid image c =
      if not is_valid || c.local_ip == 0 || is_null image
      then (c, [])
      else (show_image_for_ip c.local_ip image c, image ∷ [])

  -- The calls that the window makes.
  unfoldable pub call_camera : CameraCall Image → CameraVideo Image → CameraVideo Image
  call_camera CameraCall.end_video = end_video
  call_camera CameraCall.start_camera = start_camera
  call_camera CameraCall.stop_camera = stop_camera
  call_camera CameraCall.show_main_avatar = show_main_avatar
  call_camera CameraCall.clear_displays = clear_all_partner_displays
  call_camera (CameraCall.set_local_ip ip) = set_local_ip ip
  call_camera (CameraCall.set_main_ip ip) = set_main_ip ip
  call_camera (CameraCall.show_avatar ip) = show_avatar_for_ip ip
  call_camera (CameraCall.add_display ip) = add_partner_display ip
  call_camera (CameraCall.remove_display ip) = remove_partner_display ip
  call_camera (CameraCall.refresh_main ip) = refresh_main_for_ip ip
  call_camera (CameraCall.show_image ip image) = show_image_for_ip ip image
