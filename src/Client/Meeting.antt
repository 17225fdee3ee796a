-- ===== src/Client/Meeting.antt =====
-- client/include/widget/meeting/meeting_widget.h and meeting_controller.h: the state of the meeting
-- window and what its slots do to other objects. A slot maps the state to the state and the list of
-- its effects, in order: the signals that it emits and the calls that it makes. The audio objects are
-- there from the start, so the tests on them are left out; an address that is shown is the number
-- itself.
pub mod Partners
pub mod Session
pub mod Messages
pub mod Chat
pub mod Events
pub mod Consistency
pub mod Invariant
pub mod Waiting
pub mod Members
pub mod Ending
pub mod Marks
use cloud_meeting_client.Prelude.{ℕ, Bool, Bytes, List, [], Option, Map, ◌++◌, ◌∷◌}

pub data ConnectAction : Type 0 where
  no_action create_action join_action : ConnectAction

-- The arguments of a request to connect.
pub record ConnectRequest : Type 0 where
  pub ip : Bytes
  pub port : Bytes
  pub action : ConnectAction
  pub room_no : Bytes

pub data Notice : Type 0 where
  room_created : ℕ → Notice
  no_room no_meeting full_meeting joined_meeting meeting_over net_error bad_room_no : Notice

-- Calls of `CameraVideo`.
pub data CameraCall (Image : Type 0) : Type 0 where
  end_video start_camera stop_camera show_main_avatar clear_displays : CameraCall Image
  set_local_ip set_main_ip show_avatar add_display remove_display refresh_main :
      ℕ → CameraCall Image
  show_image : ℕ → Image → CameraCall Image

pub data Effect (Image : Type 0) : Type 0 where
  request_connect : ConnectRequest → Effect Image
  connect_server_finished : Bool → ConnectRequest → Effect Image
  create_meeting_requested disconnect_call start_timer : Effect Image
  join_meeting_requested : Bytes → Effect Image
  start_audio stop_audio start_play stop_play : Effect Image
  clear_pending_images send_close_camera_call play_sound : Effect Image
  send_text_call : Bytes → Effect Image
  send_image_call : Image → Effect Image
  set_volume : ℕ → Effect Image
  box : Notice → Effect Image
  camera : CameraCall Image → Effect Image

pub data MeetStatus : Type 0 where
  not_in_meeting created joined : MeetStatus

pub data ServerLabel : Type 0 where
  not_connected connected : ServerLabel
  at_address : Bytes → ServerLabel

-- The labels; `none` is shown as a dash.
pub record MeetingInfo : Type 0 where
  pub status : MeetStatus
  pub room : Option ℕ
  pub members : ℕ
  pub local_ip : Option ℕ
  pub speaker : Option Bytes
  pub server : ServerLabel

pub data AudioText : Type 0 where
  open_audio_text close_audio_text : AudioText

pub data VideoText : Type 0 where
  open_video_text video_on_text video_off_text : VideoText

pub record Partner : Type 0 where
  pub selected : Bool

-- A row of the chat: the time, or a message with its text, its sender, whether it is the user's own,
-- and whether it is marked as sent.
pub record ChatItem : Type 0 where
  pub time : ℕ
  pub text : Option Bytes
  pub ip : ℕ
  pub mine : Bool
  pub sent : Bool

-- The title of the main box: none but its name, the number of the room, or the address that it shows.
pub data Title : Type 0 where
  no_title : Title
  room_title : ℕ → Title
  address_title : ℕ → Title

-- `pending_connect` is `none` while `_hasPendingConnect` is false. `room_no` is an `int` as a word of
-- 32 bits.
pub record MeetingWidget : Type 0 where
  pub has_network : Bool
  pub has_controller : Bool
  pub is_visible : Bool
  pub createmeet : Bool
  pub joinmeet : Bool
  pub session_active : Bool
  pub session_ending : Bool
  pub connecting : Bool
  pub pending_connect : Option ConnectRequest
  pub partner : Map Partner
  pub mainip : ℕ
  pub iplist : List ℕ
  pub room_no : ℕ
  pub server_addr : Bytes
  pub open_audio_disabled : Bool
  pub open_vedio_disabled : Bool
  pub sendmsg_disabled : Bool
  pub open_audio_label : AudioText
  pub open_vedio_label : VideoText
  pub title : Title
  pub info : MeetingInfo
  pub chat : List ChatItem

abbrev pub Slot : Type 0 → Type 0
Slot Image = MeetingWidget → MeetingWidget × List (Effect Image)

abbrev pub emit : {Image : Type 0} → Effect Image → Slot Image
emit e w = (w, e ∷ [])

abbrev pub modify : {Image : Type 0} → (MeetingWidget → MeetingWidget) → Slot Image
modify f w = (f w, [])

abbrev pub skip : {Image : Type 0} → Slot Image
skip w = (w, [])

infixr 5 ◌>>◌
abbrev pub ◌>>◌ : {Image : Type 0} → Slot Image → Slot Image → Slot Image
◌>>◌ f g w = ((g (f w).0).0, (f w).1 ++ (g (f w).0).1)

-- A slot that looks at the state.
abbrev pub look : {Image : Type 0} → (MeetingWidget → Slot Image) → Slot Image
look f w = f w w
