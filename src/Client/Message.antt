-- ===== src/Client/Message.antt =====
-- client/include/network/messageNet/message.h: the messages. The class hierarchy is one data type
-- with a constructor for each class; `Image` stands for QImage.
use cloud_meeting_client.Prelude.{ℕ, Bytes, List}

pub data MessageKind : Type 0 where
  create_meeting join_meeting exit_meeting close_camera : MessageKind
  send_text send_image send_audio : MessageKind
  create_meeting_response join_meeting_response : MessageKind
  recv_text recv_image recv_audio : MessageKind
  partner_join partner_exit partner_join2 close_camera_notify : MessageKind
  remote_host_closed_error other_net_error : MessageKind

pub data MessagePriority : Type 0 where
  control audio text video : MessagePriority

-- What a message holds besides its address. Texts are bytes. A response code is an `int32_t`, given
-- by its bit pattern.
pub data Content (Image : Type 0) : Type 0 where
  create_meeting_message exit_meeting_message close_camera_message : Content Image
  join_meeting_message : (room_no : Bytes) → Content Image
  send_text_message : (text : Bytes) → Content Image
  send_image_message : (image : Image) → Content Image
  send_audio_message : (pcm : Bytes) → Content Image
  create_meeting_response_message : (room_no : ℕ) → Content Image
  join_meeting_response_message : (response_code : ℕ) → Content Image
  recv_text_message : (text : Bytes) → Content Image
  recv_image_message : (image : Image) → Content Image
  recv_audio_message : (pcm : Bytes) → Content Image
  partner_join_message partner_exit_message : Content Image
  partner_join2_message : (partner_ips : List ℕ) → Content Image
  close_camera_notify_message : Content Image
  remote_host_closed_error_message other_net_error_message : Content Image

pub record Message (Image : Type 0) : Type 0 where
  pub ip : ℕ
  pub content : Content Image

-- A new message has the address 0.
abbrev pub message : {Image : Type 0} → Content Image → Message Image
message c = record { ip = 0; content = c }

unfoldable pub kind_of : {Image : Type 0} → Content Image → MessageKind
kind_of create_meeting_message = create_meeting
kind_of exit_meeting_message = exit_meeting
kind_of close_camera_message = close_camera
kind_of (join_meeting_message r) = join_meeting
kind_of (send_text_message t) = send_text
kind_of (send_image_message i) = send_image
kind_of (send_audio_message a) = send_audio
kind_of (create_meeting_response_message r) = create_meeting_response
kind_of (join_meeting_response_message c) = join_meeting_response
kind_of (recv_text_message t) = recv_text
kind_of (recv_image_message i) = recv_image
kind_of (recv_audio_message a) = recv_audio
kind_of partner_join_message = partner_join
kind_of partner_exit_message = partner_exit
kind_of (partner_join2_message ips) = partner_join2
kind_of close_camera_notify_message = close_camera_notify
kind_of remote_host_closed_error_message = remote_host_closed_error
kind_of other_net_error_message = other_net_error

abbrev pub kind : {Image : Type 0} → Message Image → MessageKind
kind m = kind_of m.content

unfoldable pub priority_of : {Image : Type 0} → Content Image → MessagePriority
priority_of (send_text_message t) = text
priority_of (send_image_message i) = video
priority_of (send_audio_message a) = audio
priority_of _ = control

abbrev pub send_priority : {Image : Type 0} → Message Image → MessagePriority
send_priority m = priority_of m.content
