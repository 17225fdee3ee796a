-- ===== src/Server/Protocol/Codec.antt =====
-- server/include/protocol/codec.h and server/src/protocol/codec.cpp. On the wire a frame is
-- `$ | type(2) | ip(4) | size(4) | payload | #`, its words in network order.
use cloud_meeting_client.Prelude.{
  ℕ, ◌+◌, ◌-◌, ◌%◌, ◌^◌, Bool, true, false, not, ◌||◌, [], ◌∷◌, ◌++◌, Bytes, be16, be32, of_be16,
  of_be32, ltb, ◌==◌, if◌then◌else◌, length, take, drop, replicate, get_or,
}
use cloud_meeting_client.Server.Buffer.{Buffer, read_begin, readable_size, move_read_pos}
use cloud_meeting_client.Server.Protocol.{Packet}
use cloud_meeting_client.Server.Protocol.MessageType.{
  MessageType, create_meeting_response, join_meeting_response, partner_join2,
}

pub data DecodeStatus : Type 0 where
  need_more ok invalid : DecodeStatus

abbrev pub header_size : ℕ
header_size = 11

abbrev pub magic : ℕ
magic = b'$'

abbrev pub tail : ℕ
tail = b'#'

-- The words at the front of a block: `memcpy`, then `ntohs` or `ntohl`.
abbrev pub read_uint16 : Bytes → ℕ
read_uint16 block = of_be16 block

abbrev pub read_uint32 : Bytes → ℕ
read_uint32 block = of_be32 block

-- `htons` or `htonl`, then `memcpy`.
abbrev pub write_uint16 : ℕ → Bytes
write_uint16 = be16

abbrev pub write_uint32 : ℕ → Bytes
write_uint32 = be32

-- The status, the packet as it is left, and the buffer.
unfoldable pub try_decode : Buffer → Packet → DecodeStatus × Packet × Buffer
try_decode buffer packet =
    if ltb (readable_size buffer) header_size
    then (need_more, packet, buffer)
    else (let head = read_begin buffer in
        if not (get_or head 0 0 == magic)
        then (invalid, packet, buffer)
        else (let p = record packet {
          type = read_uint16 (drop 1 head);
          ip = read_uint32 (drop 3 head);
        } in
            let payload_size = read_uint32 (drop 7 head) in
            let frame_size = header_size + payload_size + 1 in
            if ltb (readable_size buffer) frame_size
            then (need_more, p, buffer)
            else if not (get_or head (frame_size - 1) 0 == tail)
            then (invalid, p, buffer)
            else (
              ok,
              record p { payload = take payload_size (drop header_size head) },
              move_read_pos buffer frame_size,
            )))

unfoldable pub header_includes_ip : MessageType → Bool
header_includes_ip type =
    if type == create_meeting_response || type == join_meeting_response || type == partner_join2
    then false
    else true

-- The parts are appended in turn. A payload's size is cast to 32 bits.
unfoldable pub encode : Packet → Bytes
encode packet =
    magic ∷ []
    ++ (write_uint16 packet.type
        ++ ((if header_includes_ip packet.type then write_uint32 packet.ip else replicate 4 0)
            ++ (write_uint32 (length packet.payload % 2 ^ 32) ++ (packet.payload ++ tail ∷ []))))
