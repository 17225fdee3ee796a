-- ===== src/Client/Codec.antt =====
-- client/include/network/messageNet/netheader.h and messagecodec.h, and
-- client/src/network/messageNet/messagecodec.cpp. What the codec takes from Qt (images, compression,
-- base64) is a parameter. Sizes that the source casts to `int` are taken to be below 2 ^ 31.
pub mod Prefix
pub mod Feeding
pub mod Streams
use cloud_meeting_client.Client.Message.{
  MessageKind, partner_join, partner_exit, close_camera_notify, create_meeting, join_meeting,
  exit_meeting, close_camera, send_text, send_image, send_audio, create_meeting_response,
  join_meeting_response, recv_text, recv_image, recv_audio, partner_join2, remote_host_closed_error,
  other_net_error, Content, create_meeting_message, exit_meeting_message, close_camera_message,
  join_meeting_message, send_text_message, send_image_message, send_audio_message,
  create_meeting_response_message, join_meeting_response_message, recv_text_message,
  recv_image_message, recv_audio_message, partner_join_message, partner_exit_message,
  partner_join2_message, close_camera_notify_message, remote_host_closed_error_message,
  other_net_error_message, Message, message, kind,
}
use cloud_meeting_client.Prelude.{
  some, of_be16, Bool, Bytes, get_or, [], suc, ◌*◌, ltb, zero, List, leb, be32, ◌==◌, ℕ, not, drop,
  take, length, ◌∷◌, none, ◌++◌, ◌/◌, ◌%◌, ◌||◌, Option, of_be32, ◌+◌, if◌then◌else◌, ◌^◌, be16,
}
use cloud_meeting_client.Client.Kinds.{
  msg_header, to_wire_type, MsgType, wire_frame_needs_length_field, cast_type,
  partner_kind_from_wire,
}

-- What Qt does: the images, `qCompress` and `qUncompress`, base64, `QImage::save` as JPEG (`none`
-- when it fails) and `QImage::loadFromData` (`none` for what is no image). `stoul` stands for
-- `std::stoul` and the cast of its result, `none` where it throws; the width of its result differs
-- between platforms.
pub record Qt : Type 1 where
  pub Image : Type 0
  pub compress : Bytes → Bytes
  pub uncompress : Bytes → Bytes
  pub to_base64 : Bytes → Bytes
  pub from_base64 : Bytes → Bytes
  pub save_jpeg : Image → Option Bytes
  pub load_image : Bytes → Option Image
  pub stoul : Bytes → Option ℕ

-- `memcpy` of four bytes into an `int32_t`, on a little-endian machine.
abbrev pub of_le32 : Bytes → ℕ
of_le32 d = get_or d 0 0 + get_or d 1 0 * 256 + get_or d 2 0 * 65536 + get_or d 3 0 * 16777216

-- The four-byte words of a block; a rest of less than four bytes is left out.
unfoldable pub be_words : ℕ → Bytes → List ℕ
be_words zero body = []
be_words (suc n) body = of_be32 body ∷ be_words n (drop 4 body)

abbrev pub max_buffer : ℕ
max_buffer = 4 * 1024 * 1024

abbrev pub packet_size : Bytes → ℕ
packet_size raw = of_be32 (drop 7 raw) + 1 + msg_header

abbrev pub cons_some : {A : Type 0} → Option A → List A → List A
cons_some none ms = ms
cons_some (some m) ms = m ∷ ms

module _ (qt : Qt) where
  open qt use {Image, compress, uncompress, to_base64, from_base64, save_jpeg, load_image, stoul}

  unfoldable pub compress_text_payload : Bytes → Bytes
  compress_text_payload text = compress text

  unfoldable pub compress_audio_payload : Bytes → Bytes
  compress_audio_payload pcm = to_base64 (compress pcm)

  unfoldable pub compress_image_payload : Image → Bytes
  compress_image_payload image = elim (save_jpeg image) [
    | none ↦ []
    | some raw ↦ to_base64 (compress raw)
  ]

  unfoldable pub room_no_u32 : Bytes → ℕ
  room_no_u32 [] = 0
  room_no_u32 (c ∷ room_no) = elim (stoul (c ∷ room_no)) [ none ↦ 0 | some n ↦ n % 2 ^ 32 ]

  unfoldable pub encode_body : Content Image → Bytes
  encode_body (join_meeting_message room_no) = be32 (room_no_u32 room_no)
  encode_body (send_text_message text) = compress_text_payload text
  encode_body (send_image_message image) = compress_image_payload image
  encode_body (send_audio_message pcm) = compress_audio_payload pcm
  encode_body _ = []

  unfoldable pub encode_wire_frame : Message Image → ℕ → Bytes
  encode_wire_frame msg local_ip =
      let wire_type = to_wire_type (kind msg) in
      let body = encode_body msg.content in
      b'$' ∷ []
      ++ (be16 wire_type
          ++ (be32 local_ip
              ++ ((if wire_frame_needs_length_field wire_type
                    then be32 (length body % 2 ^ 32)
                    else [])
                  ++ (body ++ b'#' ∷ []))))

  unfoldable pub decode_create_meeting_response : Bytes → ℕ → Message Image
  decode_create_meeting_response body n_body =
      message (create_meeting_response_message (if leb 4 n_body then of_be32 body else 0))

  unfoldable pub decode_join_meeting_response : Bytes → ℕ → Message Image
  decode_join_meeting_response body n_body =
      message (join_meeting_response_message (if leb 4 n_body then of_le32 body else 0))

  unfoldable pub decode_partner_join2 : Bytes → ℕ → Message Image
  decode_partner_join2 body n_body = message (partner_join2_message (be_words (n_body / 4) body))

  abbrev pub from : ℕ → Content Image → Message Image
  from ip content = record { ip = ip; content = content }

  -- An empty result of `qUncompress` is an error.
  abbrev pub or_null : Bytes → (Bytes → Option (Message Image)) → Option (Message Image)
  or_null [] f = none
  or_null (x ∷ d) f = f (x ∷ d)

  unfoldable pub decode_image_recv : Bytes → ℕ → ℕ → Option (Message Image)
  decode_image_recv body n_body ip = or_null (uncompress (from_base64 (take n_body body))) (λ d.
      elim (load_image d) [ none ↦ none | some image ↦ some (from ip (recv_image_message image)) ])

  unfoldable pub decode_text_recv : Bytes → ℕ → ℕ → Option (Message Image)
  decode_text_recv body n_body ip =
      or_null (uncompress (take n_body body)) (λ d. some (from ip (recv_text_message d)))

  unfoldable pub decode_audio_recv : Bytes → ℕ → ℕ → Option (Message Image)
  decode_audio_recv body n_body ip =
      or_null (uncompress (from_base64 (take n_body body)))
        (λ d. some (from ip (recv_audio_message d)))

  unfoldable pub decode_simple_ip_event : MessageKind → ℕ → Message Image
  decode_simple_ip_event partner_join ip = from ip partner_join_message
  decode_simple_ip_event partner_exit ip = from ip partner_exit_message
  decode_simple_ip_event close_camera_notify ip = from ip close_camera_notify_message
  decode_simple_ip_event _ ip = from ip partner_join_message

  unfoldable pub decode_wire_packet : Bytes → ℕ → MsgType → Option (Message Image)
  decode_wire_packet frame n_body t =
      let body = drop msg_header frame in
      let ip = of_be32 (drop 3 frame) in
      if t == 20
      then some (decode_create_meeting_response body n_body)
      else if t == 23
      then some (decode_join_meeting_response body n_body)
      else if t == 24
      then some (decode_partner_join2 body n_body)
      else if t == 1
      then decode_image_recv body n_body ip
      else if t == 5
      then decode_text_recv body n_body ip
      else if t == 3
      then decode_audio_recv body n_body ip
      else if t == 22 || t == 21 || t == 9
      then some (decode_simple_ip_event (partner_kind_from_wire t) ip)
      else none

  -- What one round of the loop takes a whole packet for.
  unfoldable pub extract_one : Bytes → Option (Message Image)
  extract_one raw =
      let n_body = of_be32 (drop 7 raw) in
      if not (get_or raw 0 0 == b'$') || not (get_or raw (msg_header + n_body) 0 == b'#')
      then none
      else decode_wire_packet raw n_body (cast_type (of_be16 (drop 1 raw)))

  -- The loop of `extract_all`, for a number of rounds at most: the messages, and what stays in the
  -- buffer. `extract_all` allows as many rounds as there are bytes, of which a round takes 12 at least.
  unfoldable pub extract_loop : ℕ → Bytes → List (Message Image) × Bytes
  extract_loop zero buffer = ([], buffer)
  extract_loop (suc rounds) buffer =
      let rest = extract_loop rounds (drop (packet_size buffer) buffer) in
      if ltb (length buffer) msg_header
      then ([], buffer)
      else if ltb (length buffer) (packet_size buffer)
      then ([], buffer)
      else (cons_some (extract_one buffer) rest.0, rest.1)

  unfoldable pub extract_all : Bytes → List (Message Image) × Bytes
  extract_all buffer = extract_loop (length buffer) buffer

  -- `WireStreamParser::feed`: the messages, and the new buffer.
  unfoldable pub feed : Bytes → Bytes → List (Message Image) × Bytes
  feed buffer [] = ([], buffer)
  feed buffer (x ∷ block) =
      let kept = (if ltb max_buffer (length buffer + length (x ∷ block)) then [] else buffer) in
      extract_all (kept ++ x ∷ block)
