-- ===== src/Server/Protocol/Frames.antt =====
-- What a decoder of the frame format does on a list of bytes, and that `try_decode` does the same
-- on the unread bytes of its buffer.
use cloud_meeting_client.Prelude.{
  ℕ, ◌+◌, ◌-◌, true, Bytes, of_be16, of_be32, ltb, ◌==◌, length, take, drop, get_or, ◌<◌, ◌≤◌, ◌≢◌,
  ◌≡◌, get_or-drop, arith, ◌∙◌, sym, take-take_le, Bool-cases, ap, inl, take-drop, ltb→lt, inr,
}
use cloud_meeting_client.Server.Buffer.{Buffer, read_begin, readable_size}
use cloud_meeting_client.Server.Buffer.Contents.{
  IsValid, contents, get_or-read_begin, length-contents, contents-move_read_pos,
}
use cloud_meeting_client.Server.Protocol.{Packet}
use cloud_meeting_client.Server.Protocol.Codec.{DecodeStatus, need_more, ok, invalid, try_decode}

-- The bytes that a frame of this header would have.
abbrev pub payload_size : Bytes → ℕ
payload_size bs = of_be32 (drop 7 bs)

abbrev pub packet_at : Bytes → Packet
packet_at bs = record {
  type = of_be16 (drop 1 bs);
  ip = of_be32 (drop 3 bs);
  payload = take (payload_size bs) (drop 11 bs);
}

-- What decoding comes to, by the unread bytes `bs` of the buffer `b`. A frame is taken only when
-- all of it is there; its first byte is looked at when the header is there, its last byte when the
-- frame is. Nothing is consumed otherwise.
pub data Outcome (bs : Bytes) (b : Buffer) (r : DecodeStatus × Packet × Buffer) : Type 0 where
  short_header : length bs < 11 → r.0 ≡ need_more → r.2 ≡ b → Outcome bs b r
  no_magic : 11 ≤ length bs → get_or bs 0 0 ≢ b'$' → r.0 ≡ invalid → r.2 ≡ b → Outcome bs b r
  short_frame :
      11 ≤ length bs
      → get_or bs 0 0 ≡ b'$'
      → length bs < payload_size bs + 12
      → r.0 ≡ need_more
      → r.2 ≡ b
      → Outcome bs b r
  no_tail :
      get_or bs 0 0 ≡ b'$'
      → payload_size bs + 12 ≤ length bs
      → get_or bs (payload_size bs + 11) 0 ≢ b'#'
      → r.0 ≡ invalid
      → r.2 ≡ b
      → Outcome bs b r
  frame :
      get_or bs 0 0 ≡ b'$'
      → payload_size bs + 12 ≤ length bs
      → get_or bs (payload_size bs + 11) 0 ≡ b'#'
      → r.0 ≡ ok
      → r.1 ≡ packet_at bs
      → contents r.2 ≡ drop (payload_size bs + 12) bs
      → IsValid r.2
      → Outcome bs b r

-- The fields that a header gives are those of the unread bytes.
module _ (b : Buffer) (h : 11 ≤ readable_size b) where
  at :
      (k i : ℕ) → k + i < 11 → get_or (drop k (read_begin b)) i 0 ≡ get_or (drop k (contents b)) i 0
  at k i l =
      get_or-drop k i (read_begin b) 0
      ∙ get_or-read_begin b (k + i) (omega arith)
      ∙ sym (get_or-drop k i (contents b) 0)

  type_at : of_be16 (drop 1 (read_begin b)) ≡ of_be16 (drop 1 (contents b))
  type_at = rw (at 1 0 (omega arith), at 1 1 (omega arith))

  word_at : (k : ℕ) → k + 3 < 11 → of_be32 (drop k (read_begin b)) ≡ of_be32 (drop k (contents b))
  word_at k l =
      rw (at k 0 (omega arith), at k 1 (omega arith), at k 2 (omega arith), at k 3 (omega arith))

payload_at :
    (b : Buffer) (n : ℕ)
    → n + 12 ≤ readable_size b
    → take n (drop 11 (read_begin b)) ≡ take n (drop 11 (contents b))
unfolding readable_size
payload_at b n h =
    let m = b.write_pos - b.read_pos in
    sym (take-take_le n (m - 11) (drop 11 (read_begin b)) (omega arith))
    ∙ ap (take n) (take-drop 11 m (read_begin b) (omega arith))

full_frame :
    (b : Buffer) (p : Packet)
    → IsValid b
    → 11 ≤ readable_size b
    → (get_or (read_begin b) 0 0 == b'$') ≡ true
    → payload_size (read_begin b) + 12 ≤ readable_size b
    → Outcome (contents b) b (try_decode b p)
unfolding try_decode
full_frame b p v h first l =
    let size = word_at b h 7 (omega arith) in
    let dollar : get_or (contents b) 0 0 ≡ b'$' = ground (arith, get_or-read_begin b 0) in
    let last : payload_size (contents b) + 12 ≤ length (contents b) =
      omega (arith, length-contents b v, size) in
    let i = 11 + payload_size (read_begin b) + 1 - 1 in
    let j : i ≡ payload_size (contents b) + 11 = omega (arith, size) in
    let at_i = get_or-read_begin b i (omega arith) in
    let at_j : get_or (read_begin b) i 0 ≡ get_or (contents b) (payload_size (contents b) + 11) 0 =
      at_i ∙ ap (λ k. get_or (contents b) k 0) j in
    elim (Bool-cases (get_or (read_begin b) i 0 == b'#')) [
      | inr odd ↦ no_tail dollar last (ground (arith, at_j)) (ground arith) (ground arith)
      | inl hash ↦
          let moved =
            contents-move_read_pos b (11 + payload_size (read_begin b) + 1) v (omega arith) in
          frame dollar last (ground (arith, at_j)) (ground arith)
            (ground (
              arith,
              type_at b h,
              word_at b h 3 (omega arith),
              size,
              payload_at b (payload_size (read_begin b)) l,
            ))
            (ground (arith, moved, size)) (ground (arith, moved))
    ]

-- `try_decode` on a well-formed buffer ends in exactly the way that the unread bytes call for:
-- too few bytes for a header or for the frame ask for more, a wrong first or last byte is
-- invalid, and in these cases the buffer is as it was; otherwise the packet is the one that
-- stands in the bytes, and the bytes of its frame are gone.
pub try_decode_lem : (b : Buffer) (p : Packet) → IsValid b → Outcome (contents b) b (try_decode b p)
unfolding try_decode
try_decode_lem b p v = elim (Bool-cases (ltb (readable_size b) 11)) [
  | inl few ↦
      short_header (omega (arith, length-contents b v, ltb→lt)) (ground arith) (ground arith)
  | inr header ↦
      let h : 11 ≤ readable_size b = ground arith in
      elim (Bool-cases (get_or (read_begin b) 0 0 == b'$')) [
        | inr odd ↦
            no_magic (omega (arith, length-contents b v)) (ground (arith, get_or-read_begin b 0))
              (ground arith) (ground arith)
        | inl first ↦
            let size = word_at b h 7 (omega arith) in
            let dollar : get_or (contents b) 0 0 ≡ b'$' = ground (arith, get_or-read_begin b 0) in
            elim (Bool-cases (ltb (readable_size b) (11 + payload_size (read_begin b) + 1))) [
              | inl few ↦
                  short_frame (omega (arith, length-contents b v)) dollar
                    (omega (arith, length-contents b v, ltb→lt, size)) (ground arith) (ground arith)
              | inr full ↦ full_frame b p v h first (ground arith)
            ]
      ]
]
