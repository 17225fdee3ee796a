-- ===== src/Tests/Client.antt =====
-- The theorems on the client (client/src) and on the way between clients at concrete data.
use cloud_meeting_client.Prelude.{
  Bytes, concat, some, [], All, List, arith, refl, none, ◌≡◌, true, ◌∷◌, Map, lookup, false, ◌++◌,
  ◌<◌, ◌^◌, length,
}
use cloud_meeting_client.Server.Protocol.Codec.{ok, encode, try_decode}
use cloud_meeting_client.Server.Buffer.Contents.{contents}
use cloud_meeting_client.Client.Codec.{
  Qt, encode_wire_frame, extract_loop, feed, encode_body, compress_text_payload, extract_all, from,
}
use cloud_meeting_client.Client.Message.{
  Message, message, send_text_message, close_camera_message, send_image_message, priority_of,
  kind_of, send_priority, kind, recv_text_message, join_meeting_response_message,
  partner_join2_message,
}
use cloud_meeting_client.Client.Codec.Feeding.{feed_all, feed_all-concat}
use cloud_meeting_client.Client.Kinds.{to_wire_type, wire_frame_needs_length_field}
use cloud_meeting_client.Client.Queues.{PriorityQueue, pop, pop_buckets}
use cloud_meeting_client.Client.Queues.Order.{IsSorted, to_list, AtLeast, rank}
use cloud_meeting_client.Client.Queues.Bounds.{
  IsBounded, apply_all, pushes, pops, apply_all-IsBounded,
}
use cloud_meeting_client.Relay.{text_arrives}
use cloud_meeting_client.Client.Codec.Streams.{extract_loop_enough}
use cloud_meeting_client.Client.Message.{
  priority_of, kind_of, send_priority, kind, recv_text_message, join_meeting_response_message,
  partner_join2_message,
}
use cloud_meeting_client.Client.Queues.Order.{pop_lem, rank}
use cloud_meeting_client.Server.Room.{
  Room, Connections, Participant, default_config, handle_packet, receive, partner_payload,
}
use cloud_meeting_client.Server.Buffer.{Buffer}
use cloud_meeting_client.Server.Protocol.{empty_packet}
use cloud_meeting_client.Server.Connection.{new_connection}
use cloud_meeting_client.Server.Service.Handlers.{response}
use cloud_meeting_client.Relay.Responses.{join_response}
use cloud_meeting_client.Relay.Partners.{HasAddress, partner_list, partner_list_lem}

-- Codecs that change nothing.
abbrev plain : Qt
plain = record {
  Image = Bytes;
  compress = λ d. d;
  uncompress = λ d. d;
  to_base64 = λ d. d;
  from_base64 = λ d. d;
  save_jpeg = λ i. some i;
  load_image = λ d. some d;
  stoul = λ d. none;
}

abbrev hi : Message Bytes
hi = message (send_text_message (104 ∷ 105 ∷ []))

has_size : wire_frame_needs_length_field (to_wire_type (kind hi)) ≡ true
unfolding wire_frame_needs_length_field to_wire_type kind_of
has_size = refl

-- The frame of a text for receivers, in two blocks.
abbrev blocks : List Bytes
blocks = (36 ∷ 0 ∷ 5 ∷ 0 ∷ 0 ∷ 0 ∷ []) ∷ (9 ∷ 0 ∷ 0 ∷ 0 ∷ 2 ∷ 104 ∷ 105 ∷ 35 ∷ []) ∷ []

feed_all-concat_example : feed_all plain [] blocks ≡ feed plain [] (concat blocks)
feed_all-concat_example = feed_all-concat plain blocks [] (omega arith)

extract_loop_enough_example :
    extract_loop plain 14 (concat blocks) ≡ extract_loop plain 20 (concat blocks)
extract_loop_enough_example =
    extract_loop_enough plain 14 20 (concat blocks) (omega arith) (omega arith)

-- A camera's end, two pictures and a text.
abbrev queue : PriorityQueue Bytes
queue = record {
  control_bucket = message close_camera_message ∷ [];
  audio_bucket = [];
  text_bucket = hi ∷ [];
  video_bucket = message (send_image_message (1 ∷ [])) ∷ message (send_image_message (2 ∷ [])) ∷ [];
}

queue-IsSorted : IsSorted queue
unfolding priority_of
queue-IsSorted = record {
  control_all = (refl, tt);
  audio_all = tt;
  text_all = (refl, tt);
  video_all = (refl, (refl, tt));
}

popped : pop queue ≡ (some (message close_camera_message), record queue { control_bucket = [] })
unfolding pop pop_buckets
popped = refl

pop_lem_example :
    (to_list queue ≡ message close_camera_message ∷ to_list (record queue { control_bucket = [] }))
    × All
        (AtLeast (rank (send_priority (message {Image = Bytes} close_camera_message))))
        (to_list (record queue { control_bucket = [] }))
    × IsSorted (record queue { control_bucket = [] })
pop_lem_example =
    pop_lem queue (record queue { control_bucket = [] }) (message close_camera_message)
      queue-IsSorted popped

queue-IsBounded : IsBounded queue
queue-IsBounded = omega arith

apply_all-IsBounded_example :
    IsBounded
      (apply_all (pushes true (some (message (send_image_message (3 ∷ [])))) ∷ pops ∷ []) queue)
apply_all-IsBounded_example =
    apply_all-IsBounded (pushes true (some (message (send_image_message (3 ∷ [])))) ∷ pops ∷ [])
      queue queue-IsBounded

-- A room of two members, and what the server holds of the second one: the frame of the text.
abbrev members : Map Participant
members =
    (1, record { ip_network = 7; is_owner = true })
    ∷ (2, record { ip_network = 8; is_owner = false })
    ∷ []

abbrev meeting : Room
meeting = record {
  room_id = 1;
  config = default_config;
  closed = false;
  participants = members;
  has_close_callback = true;
}

abbrev connections : Connections
connections = (1, new_connection 1 7) ∷ (2, new_connection 2 8) ∷ []

abbrev hi_frame : Bytes
hi_frame = 36 ∷ 0 ∷ 4 ∷ 0 ∷ 0 ∷ 0 ∷ 9 ∷ 0 ∷ 0 ∷ 0 ∷ 2 ∷ 104 ∷ 105 ∷ 35 ∷ []

abbrev held : Buffer
held = record { buffer = hi_frame; read_pos = 0; write_pos = 14 }

held_lem : contents held ≡ encode_wire_frame plain hi 9 ++ []
unfolding encode_wire_frame wire_frame_needs_length_field to_wire_type kind_of encode_body
    compress_text_payload
held_lem = refl

text_arrives_example :
    let r = try_decode held empty_packet in
    (r.0 ≡ ok)
    × (contents r.2 ≡ [])
    × ((d : Bytes) × (lookup 1 (handle_packet meeting 2 r.1 connections)
          ≡ some (receive d (new_connection 1 7)))
        × (extract_all plain d ≡ (from plain 8 (recv_text_message (104 ∷ 105 ∷ [])) ∷ [], [])))
text_arrives_example =
    text_arrives plain (104 ∷ 105 ∷ []) [] 9 2 1 held empty_packet meeting
      (record { ip_network = 8; is_owner = false }) (record { ip_network = 7; is_owner = true })
      (new_connection 1 7) connections refl (λ e. ground (arith, e)) (omega arith) (omega arith)
      (omega arith) (record { read_le = omega arith; write_le = omega arith }) held_lem
      (ground arith) refl refl refl (omega arith) refl

-- Room 200 is read as a number that is negative as a signed one.
join_response_example :
    extract_all plain (encode (response 23 200))
    ≡ (message {Image = Bytes} (join_meeting_response_message 3355443200) ∷ [], [])
join_response_example = join_response plain 200 (omega arith)

members_addresses : All HasAddress members
members_addresses = (omega arith, (omega arith, tt))

members_small : length (partner_payload members 2) < 2 ^ 32
unfolding partner_payload
members_small = omega arith

partner_list_lem_example :
    extract_all plain (encode (partner_list members 2))
    ≡ (message {Image = Bytes} (partner_join2_message (7 ∷ [])) ∷ [], [])
partner_list_lem_example = partner_list_lem plain members 2 members_addresses members_small
