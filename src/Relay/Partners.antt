-- ===== src/Relay/Partners.antt =====
-- The list of those who are in a room: from server/src/meeting/room.cpp to the decoder of
-- client/src/network/messageNet/messagecodec.cpp.
use cloud_meeting_client.Relay.{extract_all-Found, nothing_left}
use cloud_meeting_client.Client.Message.{message, partner_join2_message}
use cloud_meeting_client.Client.Codec.{
  Qt, extract_all, decode_wire_packet, decode_partner_join2, be_words,
}
use cloud_meeting_client.Server.Protocol.{Packet}
use cloud_meeting_client.Server.Protocol.Codec.{encode, header_includes_ip}
use cloud_meeting_client.Server.Protocol.RoundTrip.{frame_of, frame_of-Found, encode-eq-frame_of}
use cloud_meeting_client.Server.Protocol.MessageType.{partner_join2}
use cloud_meeting_client.Server.Room.{Participant, partner_payload}
use cloud_meeting_client.Prelude.{
  ◌<◌, Bool-cases, ◌==◌, ◌*◌, ◌/◌, append-nil, Map, refl, length, ◌≡◌, Bytes, List, arith, All, ℕ,
  ◌^◌, ◌++◌, ◌∙◌, [], ap₂, inr, inl, of_be32-be32, ◌∷◌, sym, append_assoc, if◌then◌else◌,
}

-- The addresses of all participants but one.
abbrev pub others : Map Participant → ℕ → List ℕ
others [] newcomer = []
others ((id, p) ∷ ps) newcomer =
    if id == newcomer then others ps newcomer else p.ip_network ∷ others ps newcomer

abbrev pub HasAddress : ℕ × Participant → Type 0
HasAddress e = e.1.ip_network < 2 ^ 32

length-partner_payload :
    (ps : Map Participant) (id : ℕ) → length (partner_payload ps id) ≡ 4 * length (others ps id)
unfolding partner_payload
length-partner_payload [] id = refl
length-partner_payload ((j, p) ∷ ps) id = elim (Bool-cases (j == id)) [
  | inl e ↦ rw (e, partner_payload) (length-partner_payload ps id)
  | inr e ↦ rw (e, partner_payload) (omega (arith, length-partner_payload ps id))
]

be_words-partner_payload :
    (ps : Map Participant) (id : ℕ) (rest : Bytes)
    → All HasAddress ps
    → be_words (length (others ps id)) (partner_payload ps id ++ rest) ≡ others ps id
unfolding partner_payload be_words
be_words-partner_payload [] id rest h = refl
be_words-partner_payload ((j, p) ∷ ps) id rest h = elim (Bool-cases (j == id)) [
  | inl e ↦ rw (e, partner_payload) (be_words-partner_payload ps id rest h.1)
  | inr e ↦
      rw (e, partner_payload)
        (ap₂ ◌∷◌ (of_be32-be32 p.ip_network h.0) (be_words-partner_payload ps id rest h.1))
]

abbrev pub partner_list : Map Participant → ℕ → Packet
partner_list ps newcomer = record {
  type = partner_join2;
  ip = 0;
  payload = partner_payload ps newcomer;
}

-- The list that the server sends to a newcomer is one message for the client, with the addresses of
-- all participants but the newcomer, in their order; when the addresses fit 32 bits, and the size of
-- the list does.
pub partner_list_lem :
    (qt : Qt) (ps : Map Participant) (newcomer : ℕ)
    → All HasAddress ps
    → length (partner_payload ps newcomer) < 2 ^ 32
    → extract_all qt (encode (partner_list ps newcomer))
      ≡ (message (partner_join2_message (others ps newcomer)) ∷ [], [])
unfolding decode_wire_packet decode_partner_join2 header_includes_ip
partner_list_lem qt ps newcomer h small =
    let p = partner_list ps newcomer in
    let wire : encode p ≡ frame_of p ++ [] = encode-eq-frame_of p ∙ sym (append-nil (frame_of p)) in
    let count : length (partner_payload ps newcomer) / 4 ≡ length (others ps newcomer) =
      omega (arith, length-partner_payload ps newcomer) in
    rw wire (
      extract_all-Found qt p [] (frame_of p ++ []) (
        frame_of-Found p []
          (record { type_lt = omega arith; ip_lt = omega arith; size_lt = small }))
      ∙ rw
          (
            count,
            append_assoc (partner_payload ps newcomer) (b'#' ∷ []) [],
            be_words-partner_payload ps newcomer (b'#' ∷ []) h,
          )
          (nothing_left qt))
