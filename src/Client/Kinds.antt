-- ===== src/Client/Kinds.antt =====
-- client/include/network/messageNet/netheader.h, and the kinds of message on the wire
-- (client/src/network/messageNet/messagecodec.cpp).
use cloud_meeting_client.Client.Message.{
  MessageKind, create_meeting, join_meeting, exit_meeting, close_camera, send_text, send_image,
  send_audio, create_meeting_response, join_meeting_response, recv_text, recv_image, recv_audio,
  partner_join, partner_exit, partner_join2, close_camera_notify, remote_host_closed_error,
  other_net_error,
}
use cloud_meeting_client.Prelude.{ℕ, ◌||◌, ◌≡◌, ◌%◌, Bool, ◌==◌, if◌then◌else◌, refl}

-- `enum MSG_TYPE : std::uint8_t`; `cast_type` is the cast of a word to it.
abbrev pub MsgType : Type 0
MsgType = ℕ

abbrev pub cast_type : ℕ → MsgType
cast_type raw = raw % 256

abbrev pub msg_header : ℕ
msg_header = 11

unfoldable pub to_wire_type : MessageKind → MsgType
to_wire_type create_meeting = 6
to_wire_type join_meeting = 8
to_wire_type exit_meeting = 7
to_wire_type close_camera = 9
to_wire_type send_text = 4
to_wire_type send_image = 0
to_wire_type send_audio = 2
to_wire_type create_meeting_response = 20
to_wire_type join_meeting_response = 23
to_wire_type recv_text = 5
to_wire_type recv_image = 1
to_wire_type recv_audio = 3
to_wire_type partner_join = 22
to_wire_type partner_exit = 21
to_wire_type partner_join2 = 24
to_wire_type close_camera_notify = 9
to_wire_type remote_host_closed_error = 40
to_wire_type other_net_error = 41

unfoldable pub from_wire_type : MsgType → MessageKind
from_wire_type t =
    if t == 0
    then send_image
    else if t == 1
    then recv_image
    else if t == 2
    then send_audio
    else if t == 3
    then recv_audio
    else if t == 4
    then send_text
    else if t == 5
    then recv_text
    else if t == 6
    then create_meeting
    else if t == 7
    then exit_meeting
    else if t == 8
    then join_meeting
    else if t == 9
    then close_camera
    else if t == 20
    then create_meeting_response
    else if t == 21
    then partner_exit
    else if t == 22
    then partner_join
    else if t == 23
    then join_meeting_response
    else if t == 24
    then partner_join2
    else if t == 40
    then remote_host_closed_error
    else other_net_error

unfoldable pub wire_frame_needs_length_field : MsgType → Bool
wire_frame_needs_length_field t = t == 6 || t == 2 || t == 9 || t == 0 || t == 4 || t == 8

unfoldable pub partner_kind_from_wire : MsgType → MessageKind
partner_kind_from_wire t =
    if t == 22
    then partner_join
    else if t == 21
    then partner_exit
    else if t == 9
    then close_camera_notify
    else partner_join

-- The kind that a kind's own type is read as.
abbrev pub read_kind : MessageKind → MessageKind
read_kind close_camera_notify = close_camera
read_kind k = k

-- Each kind but one is read back from its type on the wire: the two kinds for a camera's end
-- share one type, which is read as the kind that is sent.
pub from_wire_type-to_wire_type : (k : MessageKind) → from_wire_type (to_wire_type k) ≡ read_kind k
unfolding from_wire_type to_wire_type
from_wire_type-to_wire_type create_meeting = refl
from_wire_type-to_wire_type join_meeting = refl
from_wire_type-to_wire_type exit_meeting = refl
from_wire_type-to_wire_type close_camera = refl
from_wire_type-to_wire_type send_text = refl
from_wire_type-to_wire_type send_image = refl
from_wire_type-to_wire_type send_audio = refl
from_wire_type-to_wire_type create_meeting_response = refl
from_wire_type-to_wire_type join_meeting_response = refl
from_wire_type-to_wire_type recv_text = refl
from_wire_type-to_wire_type recv_image = refl
from_wire_type-to_wire_type recv_audio = refl
from_wire_type-to_wire_type partner_join = refl
from_wire_type-to_wire_type partner_exit = refl
from_wire_type-to_wire_type partner_join2 = refl
from_wire_type-to_wire_type close_camera_notify = refl
from_wire_type-to_wire_type remote_host_closed_error = refl
from_wire_type-to_wire_type other_net_error = refl
