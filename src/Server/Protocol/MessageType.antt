-- ===== src/Server/Protocol/MessageType.antt =====
-- server/include/protocol/message_type.h and server/src/protocol/message_type.cpp.
use Prim.Native.String.{String}
use cloud_meeting_client.Prelude.{ℕ, ◌==◌, if◌then◌else◌}

-- `enum class MessageType : uint16_t`. The decoder casts any word to it, so a value is a number
-- below 2 ^ 16, and the enumerators are names for some of them.
abbrev pub MessageType : Type 0
MessageType = ℕ

abbrev pub img_send : MessageType
img_send = 0

abbrev pub img_recv : MessageType
img_recv = 1

abbrev pub audio_send : MessageType
audio_send = 2

abbrev pub audio_recv : MessageType
audio_recv = 3

abbrev pub text_send : MessageType
text_send = 4

abbrev pub text_recv : MessageType
text_recv = 5

abbrev pub create_meeting : MessageType
create_meeting = 6

abbrev pub exit_meeting : MessageType
exit_meeting = 7

abbrev pub join_meeting : MessageType
join_meeting = 8

abbrev pub close_camera : MessageType
close_camera = 9

abbrev pub create_meeting_response : MessageType
create_meeting_response = 20

abbrev pub partner_exit : MessageType
partner_exit = 21

abbrev pub partner_join : MessageType
partner_join = 22

abbrev pub join_meeting_response : MessageType
join_meeting_response = 23

abbrev pub partner_join2 : MessageType
partner_join2 = 24

unfoldable pub get_type_name : MessageType → String
get_type_name t =
    if t == img_send
    then "ImgSend"
    else if t == img_recv
    then "ImgRecv"
    else if t == audio_send
    then "AudioSend"
    else if t == audio_recv
    then "AudioRecv"
    else if t == text_send
    then "TextSend"
    else if t == text_recv
    then "TextRecv"
    else if t == create_meeting
    then "CreateMeeting"
    else if t == exit_meeting
    then "ExitMeeting"
    else if t == join_meeting
    then "JoinMeeting"
    else if t == close_camera
    then "CloseCamera"
    else if t == create_meeting_response
    then "CreateMeetingResponse"
    else if t == partner_exit
    then "PartnerExit"
    else if t == partner_join
    then "PartnerJoin"
    else if t == join_meeting_response
    then "JoinMeetingResponse"
    else if t == partner_join2
    then "PartnerJoin2"
    else "Unknown"
