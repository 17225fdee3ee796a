-- ===== src/Relay/Responses.antt =====
-- The answers to creating and joining a meeting: from server/src/service/meeting_service.cpp to the
-- decoders of client/src/network/messageNet/messagecodec.cpp.
use cloud_meeting_client.Relay.{extract_all-Found, nothing_left}
use cloud_meeting_client.Client.Message.{
  message, create_meeting_response_message, join_meeting_response_message,
}
use cloud_meeting_client.Client.Codec.{
  Qt, extract_all, decode_wire_packet, decode_create_meeting_response, decode_join_meeting_response,
}
use cloud_meeting_client.Server.Protocol.Codec.{encode, header_includes_ip}
use cloud_meeting_client.Server.Protocol.RoundTrip.{
  Found, frame_of, on_wire, frame_of-Found, encode-eq-frame_of,
}
use cloud_meeting_client.Server.Service.Handlers.{response}
use cloud_meeting_client.Prelude.{
  ap, inl, sym, ◌∷◌, ℕ, Bool-cases, ◌^◌, arith, append-nil, ◌+◌, [], ◌/◌, ◌∙◌, ◌%◌, ◌*◌, refl, ◌<◌,
  inr, of_be32-be32, ◌≡◌, ◌++◌,
}

on_wire-response : (type r : ℕ) → on_wire (response type r) ≡ response type r
unfolding header_includes_ip
on_wire-response type r = elim (Bool-cases (header_includes_ip type)) [
  | inl e ↦ rw e refl
  | inr e ↦ rw e refl
]

wire_response : (type r : ℕ) → encode (response type r) ≡ frame_of (response type r) ++ []
wire_response type r =
    encode-eq-frame_of (response type r)
    ∙ ap frame_of (on_wire-response type r)
    ∙ sym (append-nil (frame_of (response type r)))

response-Found :
    (type r : ℕ) → type < 2 ^ 16 → Found (response type r) [] (frame_of (response type r) ++ [])
response-Found type r h =
    frame_of-Found (response type r) []
      (record { type_lt = h; ip_lt = omega arith; size_lt = omega arith })

-- The bytes of a word in the other order.
abbrev pub swapped : ℕ → ℕ
swapped r = r / 16777216 + r / 65536 % 256 * 256 + r / 256 % 256 * 65536 + r % 256 * 16777216

module _ (qt : Qt) where
  -- The server's answer to a creation is one message for the client, with the room's number, when it
  -- fits 32 bits.
  pub create_response :
      (r : ℕ)
      → r < 2 ^ 32
      → extract_all qt (encode (response 20 r))
        ≡ (message (create_meeting_response_message r) ∷ [], [])
  unfolding decode_wire_packet decode_create_meeting_response
  create_response r h = rw (wire_response 20 r) (
      extract_all-Found qt (response 20 r) [] (frame_of (response 20 r) ++ [])
        (response-Found 20 r (omega arith))
      ∙ rw (of_be32-be32 r h) (nothing_left qt))

  -- The server's answer to joining a room is one message for the client, but with the bytes of the
  -- room's number in the other order.
  pub join_response :
      (r : ℕ)
      → r < 2 ^ 32
      → extract_all qt (encode (response 23 r))
        ≡ (message (join_meeting_response_message (swapped r)) ∷ [], [])
  unfolding decode_wire_packet decode_join_meeting_response
  join_response r h =
      let high : r / 16777216 % 256 ≡ r / 16777216 = omega (arith, h) in
      rw (wire_response 23 r) (
        extract_all-Found qt (response 23 r) [] (frame_of (response 23 r) ++ [])
          (response-Found 23 r (omega arith))
        ∙ rw high (nothing_left qt))
