-- ===== src/Relay.antt =====
-- A text on its way: from the client's encoder (client/src/network/messageNet/messagecodec.cpp) to the
-- server (server/src/protocol/codec.cpp, server/src/meeting/room.cpp) and to another client's parser.
pub mod Responses
pub mod Partners
use cloud_meeting_client.Client.Message.{
  Message, kind, recv_text_message, message, send_text_message, kind_of,
}
use cloud_meeting_client.Client.Codec.{
  Qt, encode_body, encode_wire_frame, decode_wire_packet, decode_text_recv, extract_one,
  extract_all, from, cons_some, or_null, extract_loop, compress_text_payload,
}
use cloud_meeting_client.Client.Codec.Streams.{extract_all_step}
use cloud_meeting_client.Server.Protocol.{Packet}
use cloud_meeting_client.Server.Protocol.Codec.{ok, encode, header_includes_ip, try_decode}
use cloud_meeting_client.Server.Protocol.RoundTrip.{
  Found, IsPacket, frame_of, encode-eq-frame_of, frame_of-Found, on_wire, try_decode-encode,
}
use cloud_meeting_client.Server.Protocol.Frames.{payload_size}
use cloud_meeting_client.Prelude.{
  ap, arith, ◌≡◌, ◌%◌, length, true, Bytes, ℕ, [], ◌+◌, drop, refl, take, some, ◌∙◌, ◌∷◌, sym, ◌≢◌,
  get_or, ◌^◌, lookup, append-nil, ◌++◌, IsMap, false, ◌<◌, List,
}
use cloud_meeting_client.Server.Buffer.{Buffer}
use cloud_meeting_client.Server.Room.{Room, Participant, Connections, handle_packet, receive}
use cloud_meeting_client.Server.Connection.{Connection}
use cloud_meeting_client.Server.Buffer.Contents.{IsValid, contents}
use cloud_meeting_client.Server.Room.Broadcast.{relayed, reached, handle_packet_lem}
use cloud_meeting_client.Client.Kinds.{to_wire_type, wire_frame_needs_length_field}

module _ (qt : Qt) where
  open qt use {Image, compress, uncompress}

  abbrev pub packet_of : Message Image → ℕ → Packet
  packet_of msg local_ip = record {
    type = to_wire_type (kind msg);
    ip = local_ip;
    payload = encode_body qt msg.content;
  }

  -- For a message of a kind whose frame has a size field, the client's frame is the server's
  -- encoding of the packet with the kind's type, the client's address and the encoded body.
  pub encode_wire_frame-eq-encode :
      (msg : Message Image) (local_ip : ℕ)
      → wire_frame_needs_length_field (to_wire_type (kind msg)) ≡ true
      → encode_wire_frame qt msg local_ip ≡ encode (packet_of msg local_ip)
  unfolding encode_wire_frame encode header_includes_ip wire_frame_needs_length_field
  encode_wire_frame-eq-encode msg local_ip h = ground arith

  extract_one-Found :
      (p : Packet) (rest bs : Bytes)
      → Found p rest bs
      → extract_one qt bs ≡ decode_wire_packet qt bs (length p.payload) (p.type % 256)
  unfolding extract_one
  extract_one-Found p rest bs f =
      let last : get_or bs (11 + payload_size bs) 0 ≡ b'#' =
        ap (λ i. get_or bs i 0) {x = 11 + payload_size bs} (omega arith) ∙ f.last in
      rw (f.magic, last, f.size, ap (λ (x : Packet). x.type) f.packet) refl

  -- The client's parser takes a whole frame of the server for one packet and goes on behind it.
  pub extract_all-Found :
      (p : Packet) (rest bs : Bytes)
      → Found p rest bs
      → extract_all qt bs ≡ (
        cons_some
            (decode_wire_packet qt bs (length p.payload) (p.type % 256))
            (extract_all qt rest).0,
        (extract_all qt rest).1,
      )
  extract_all-Found p rest bs f =
      let after : drop (payload_size bs + 1 + 11) bs ≡ rest =
        ap (λ i. drop i bs) {x = payload_size bs + 1 + 11} (omega arith) ∙ f.after in
      extract_all_step qt bs (omega (arith, f.room)) (omega (arith, f.room, f.size))
      ∙ rw (extract_one-Found p rest bs f, after) refl

  decode_text-Found :
      (p : Packet) (rest bs text : Bytes)
      → Found p rest bs
      → p.type ≡ 5
      → uncompress p.payload ≡ text
      → text ≢ []
      → decode_wire_packet qt bs (length p.payload) (p.type % 256)
        ≡ some (from qt p.ip (recv_text_message text))
  unfolding decode_wire_packet decode_text_recv
  decode_text-Found p rest bs text f t u full =
      let body : take (length p.payload) (drop 11 bs) ≡ p.payload =
        ap (λ n. take n (drop 11 bs)) (sym f.size) ∙ ap (λ (x : Packet). x.payload) f.packet in
      let ip = ap (λ (x : Packet). x.ip) f.packet in rw (t, body, ip, u) (some_text text full)
    where
      some_text :
          (d : Bytes)
          → d ≢ []
          → or_null qt d (λ x. some (from qt p.ip (recv_text_message x)))
            ≡ some (from qt p.ip (recv_text_message d))
      some_text [] h = absurd (h refl)
      some_text (x ∷ d) h = refl

  abbrev pub both : List (Message Image) → List (Message Image) × Bytes
  both ms = (ms, [])

  pub nothing_left :
      {m : Message Image}
      → (cons_some (some m) (extract_all qt []).0, (extract_all qt []).1) ≡ both (m ∷ [])
  unfolding extract_all extract_loop
  nothing_left = refl

  on_wire_text : (out : Packet) → out.type ≡ 5 → on_wire out ≡ out
  unfolding header_includes_ip
  on_wire_text out t = let h : header_includes_ip out.type ≡ true = rw t refl in rw h refl

  -- The server's encoding of a text for receivers is one message for the client, and leaves nothing.
  received_text :
      (out : Packet) (text : Bytes)
      → IsPacket out
      → out.type ≡ 5
      → uncompress out.payload ≡ text
      → text ≢ []
      → extract_all qt (encode out) ≡ (from qt out.ip (recv_text_message text) ∷ [], [])
  received_text out text i t u full =
      let wire : encode out ≡ frame_of out ++ [] =
        encode-eq-frame_of out
        ∙ ap frame_of (on_wire_text out t)
        ∙ sym (append-nil (frame_of out)) in
      rw wire (
        extract_all-Found out [] (frame_of out ++ []) (frame_of-Found out [] i)
        ∙ rw (decode_text-Found out [] (frame_of out ++ []) text (frame_of-Found out [] i) t u full)
            nothing_left)

  abbrev text_packet : Bytes → ℕ → Packet
  text_packet text ip = record { type = 4; ip = ip; payload = compress text }

  abbrev text_out : Bytes → ℕ → Packet
  text_out text ip = record { type = 5; ip = ip; payload = compress text }

  -- What the server reads of a client's frame.
  decoded :
      (text rest : Bytes) (local_ip : ℕ) (b : Buffer) (q : Packet)
      → length (compress text) < 2 ^ 32
      → local_ip < 2 ^ 32
      → IsValid b
      → contents b ≡ encode_wire_frame qt (message (send_text_message text)) local_ip ++ rest
      → let r = try_decode b q in
        (r.0 ≡ ok) × (r.1 ≡ text_packet text local_ip) × (contents r.2 ≡ rest) × IsValid r.2
  unfolding header_includes_ip wire_frame_needs_length_field to_wire_type encode_body
      compress_text_payload kind_of
  decoded text rest local_ip b q s l v e =
      let msg : Message Image = message (send_text_message text) in
      try_decode-encode (packet_of msg local_ip) q rest b
        (record { type_lt = omega arith; ip_lt = l; size_lt = s }) v
        (e ∙ ap (λ xs. xs ++ rest) (encode_wire_frame-eq-encode msg local_ip refl))

  -- What each other member is sent for it.
  sent_on :
      (text : Bytes) (local_ip from_id j : ℕ) (room : Room) (sender member : Participant)
      (c : Connection) (cs : Connections)
      → IsMap room.participants
      → room.closed ≡ false
      → lookup from_id room.participants ≡ some sender
      → lookup j room.participants ≡ some member
      → j ≢ from_id
      → lookup j cs ≡ some c
      → lookup j (handle_packet room from_id (text_packet text local_ip) cs)
        ≡ some (receive (encode (text_out text sender.ip_network)) c)
  unfolding relayed reached
  sent_on text local_ip from_id j room sender member c cs m open_room at_from at_j other at_c =
      let hit : reached j from_id room.participants ≡ true =
        rw (at_j, reached) (ground (arith, other)) in
      handle_packet_lem room from_id j (text_packet text local_ip) cs m
      ∙ rw (at_from, open_room, hit, at_c) refl

  -- When the unread bytes that the server holds of a member start with the frame that a client
  -- made for a text, the server decodes a packet and keeps the bytes behind it; handling the
  -- packet in the member's open room gives each other connected member one block to send; and the
  -- client at the other end parses this block as exactly one message, the same text under the
  -- address at which the server knows the sender. The conditions: `qUncompress` undoes
  -- `qCompress` on the text, the text is not empty, its size and the two addresses fit their
  -- fields, the buffer is well formed, and the room's participants stand once each.
  pub text_arrives :
      (text rest : Bytes) (local_ip from_id j : ℕ) (b : Buffer) (q : Packet) (room : Room)
      (sender member : Participant) (c : Connection) (cs : Connections)
      → uncompress (compress text) ≡ text
      → text ≢ []
      → length (compress text) < 2 ^ 32
      → local_ip < 2 ^ 32
      → sender.ip_network < 2 ^ 32
      → IsValid b
      → contents b ≡ encode_wire_frame qt (message (send_text_message text)) local_ip ++ rest
      → IsMap room.participants
      → room.closed ≡ false
      → lookup from_id room.participants ≡ some sender
      → lookup j room.participants ≡ some member
      → j ≢ from_id
      → lookup j cs ≡ some c
      → let r = try_decode b q in
        (r.0 ≡ ok)
        × (contents r.2 ≡ rest)
        × ((d : Bytes) × (lookup j (handle_packet room from_id r.1 cs) ≡ some (receive d c))
            × (extract_all qt d ≡ (from qt sender.ip_network (recv_text_message text) ∷ [], [])))
  text_arrives text rest local_ip from_id j b q room sender member c cs u full size l s v e m
        open_room at_from at_j other at_c =
      let got = decoded text rest local_ip b q size l v e in
      let out = text_out text sender.ip_network in
      (
        got.0,
        got.2,
        (
          encode out,
          rw got.1 (
              sent_on text local_ip from_id j room sender member c cs m open_room at_from at_j other
                at_c),
          received_text out text (record { type_lt = omega arith; ip_lt = s; size_lt = size }) refl
              u full,
        ),
      )
