-- ===== src/Tests/Network.antt =====
-- The theorems on the hub and the connection of the client (client/src/network/messageNet), on these with
-- the meeting window and the controller, and on audio formats (client/src/message/audio) at concrete
-- data.
use cloud_meeting_client.Client.Hub.Worker.{testing, Worker, checked}
use cloud_meeting_client.Client.Hub.Epochs.{
  Action, stopped, started, act_all, act_all-superseded, work, enqueued,
}
use cloud_meeting_client.Client.Link.{Network, connected_at}
use cloud_meeting_client.Prelude.{
  ◌∷◌, refl, Bytes, length, some, [], arith, ◌≤◌, none, ◌≡◌, true, List, false, ℕ,
}
use cloud_meeting_client.Client.Codec.{Qt}
use cloud_meeting_client.Client.Message.{
  Message, message, send_text_message, create_meeting_message,
}
use cloud_meeting_client.Client.Queues.{PriorityQueue}
use cloud_meeting_client.Client.Hub.{MessageHub}
use cloud_meeting_client.Client.Hub.Draining.{work_on, running, posts_of, work_on-posts_of}
use cloud_meeting_client.Client.Meeting.Events.{closed}
use cloud_meeting_client.Client.System.{Client, run, Threads}
use cloud_meeting_client.Tests.Meeting.{here, meeting_window}
use cloud_meeting_client.Client.System.Closing.{IsOffline, run-closed}
use cloud_meeting_client.Client.Audio.{uint8, int16, int32, float_format, unknown, SampleFormat}
use cloud_meeting_client.Client.Audio.RoundTrip.{converts, convert_channels_back}
use cloud_meeting_client.Client.Meeting.{Effect, disconnect_call}

abbrev plain_qt : Qt
plain_qt = record {
  Image = Bytes;
  compress = λ d. d;
  uncompress = λ d. d;
  to_base64 = λ d. d;
  from_base64 = λ d. d;
  save_jpeg = λ i. some i;
  load_image = λ d. some d;
  stoul = λ d. none;
}

abbrev hello : Message Bytes
hello = message (send_text_message (104 ∷ 105 ∷ []))

abbrev two_waiting : PriorityQueue Bytes
two_waiting = record {
  control_bucket = message create_meeting_message ∷ [];
  audio_bucket = [];
  text_bucket = hello ∷ [];
  video_bucket = [];
}

abbrev second_session : MessageHub Bytes
second_session = record {
  send_queue = two_waiting;
  recv_audio_queue = [];
  has_connection = true;
  send_running = true;
  send_epoch = 4;
}

abbrev old_worker : Worker Bytes
old_worker = record { epoch = 2; phase = checked hello }

abbrev overlap : List (Action Bytes)
overlap =
    work true 7 ∷ enqueued true (some hello) ∷ work true 7 ∷ stopped ∷ started ∷ work true 7 ∷ []

act_all-superseded_example : length (act_all plain_qt overlap old_worker second_session) ≤ 1
act_all-superseded_example =
    act_all-superseded plain_qt overlap old_worker second_session (omega arith) (omega arith)

work_on-posts_of_example :
    (work_on plain_qt 9 7 4 testing (running plain_qt two_waiting [] 4)).2
    ≡ posts_of plain_qt 7 (message create_meeting_message ∷ hello ∷ [])
work_on-posts_of_example = work_on-posts_of plain_qt 7 4 [] 2 1 two_waiting refl

abbrev joined_frame : Bytes
joined_frame = b'$' ∷ 0 ∷ 27 ∷ 0 ∷ 0 ∷ 0 ∷ 9 ∷ 0 ∷ 0 ∷ 0 ∷ 0 ∷ b'#' ∷ []

abbrev online : Network Bytes
online = record {
  connection = record { socket = true; parser = []; has_local_ip = true; local_ip = 7 };
  hub = second_session;
}

abbrev meeting_client : Client Bytes
meeting_client = record { window = meeting_window; network = online }

-- Locks that are got, and nothing in hand.
abbrev calm : Effect Bytes → Threads Bytes
calm e = record { send_locked = true; audio_locked = true; in_hand = none }

run-closed_example :
    let (last, waiting) =
      run plain_qt (λ r. connected_at 7) here calm 3 (closed ∷ []) meeting_client in
    (waiting ≡ [])
    × (last.window.session_active ≡ false)
    × (last.window.session_ending ≡ false)
    × (last.window.connecting ≡ false)
    × IsOffline (calm disconnect_call) last.network
run-closed_example =
    run-closed plain_qt (λ r. connected_at 7) here calm meeting_client refl refl refl

abbrev as_documented : SampleFormat → ℕ
as_documented uint8 = 1
as_documented int16 = 2
as_documented int32 = 4
as_documented float_format = 4
as_documented unknown = 0

convert_channels_back_example :
    converts as_documented
      (λ l r. l)
      (converts as_documented (λ l r. l) (1 ∷ 200 ∷ 3 ∷ []) 1 2 int16)
      2
      1
      int16
    ≡ 1 ∷ 200 ∷ []
convert_channels_back_example =
    convert_channels_back as_documented (λ l r. l) int16 (1 ∷ 200 ∷ 3 ∷ []) (omega arith) refl
      (omega arith, (omega arith, (omega arith, tt)))
