-- ===== src/Server/Protocol/RoundTrip.antt =====
-- server/src/protocol/codec.cpp: `encode` followed by `try_decode`.
use cloud_meeting_client.Server.Protocol.{Packet, Bytes}
use cloud_meeting_client.Server.Protocol.Codec.{
  encode, header_includes_ip, try_decode, ok, need_more,
}
use cloud_meeting_client.Server.Protocol.Frames.{
  payload_size, packet_at, Outcome, short_header, no_magic, short_frame, no_tail, frame,
  try_decode_lem,
}
use cloud_meeting_client.Prelude.{
  ◌<◌, ◌^◌, if◌then◌else◌, ◌∷◌, ◌≡◌, length, get_or, ◌++◌, [], Bool-cases, ◌+◌, arith, be16,
  length-append, ◌≤◌, be32, drop, ◌%◌, append_assoc, ap, take, ◌∙◌, sym, take-append, get_or-drop,
  drop-drop, drop-append, of_be16-be16, inl, refl, of_be32-be32, inr, ℕ, get_or-append, length-drop,
  append-nil, Bytes,
}
use cloud_meeting_client.Server.Buffer.{Buffer}
use cloud_meeting_client.Server.Buffer.Contents.{IsValid, contents}

-- The fields fit their widths.
pub record IsPacket (p : Packet) : Type 0 where
  pub type_lt : p.type < 2 ^ 16
  pub ip_lt : p.ip < 2 ^ 32
  pub size_lt : length p.payload < 2 ^ 32

-- The packet that is read back: three types carry no address.
abbrev pub on_wire : Packet → Packet
on_wire p = record p { ip = if header_includes_ip p.type then p.ip else 0 }

-- The frame of a packet, its address written whatever its type.
abbrev pub frame_of : Packet → Bytes
frame_of p =
    b'$' ∷ []
    ++ (be16 p.type
        ++ (be32 p.ip ++ (be32 (length p.payload % 2 ^ 32) ++ (p.payload ++ b'#' ∷ []))))

pub encode-eq-frame_of : (p : Packet) → encode p ≡ frame_of (on_wire p)
unfolding encode
encode-eq-frame_of p = elim (Bool-cases (header_includes_ip p.type)) [ inl e ↦ rw e | inr e ↦ rw e ]

pub length-frame_of : (p : Packet) → length (frame_of p) ≡ length p.payload + 12
length-frame_of p = omega (arith, length-append p.payload (b'#' ∷ []))

-- What the reader finds at the front of a frame.
pub record Found (p : Packet) (rest : Bytes) (bs : Bytes) : Type 0 where
  pub magic : get_or bs 0 0 ≡ b'$'
  pub size : payload_size bs ≡ length p.payload
  pub room : length p.payload + 12 ≤ length bs
  pub last : get_or bs (payload_size bs + 11) 0 ≡ b'#'
  pub packet : packet_at bs ≡ p
  pub after : drop (payload_size bs + 12) bs ≡ rest

-- What follows the header of a frame.
body_of : (p : Packet) (rest : Bytes) → drop 11 (frame_of p ++ rest) ≡ p.payload ++ (b'#' ∷ rest)
body_of p rest = append_assoc p.payload (b'#' ∷ []) rest

last_lem : (xs : Bytes) (rest : Bytes) → get_or (xs ++ (b'#' ∷ rest)) (length xs) 0 ≡ b'#'
last_lem [] rest = refl
last_lem (x ∷ xs) rest = last_lem xs rest

module _ (p : Packet) (rest : Bytes) (i : IsPacket p) where
  abbrev bytes : Bytes
  bytes = frame_of p ++ rest

  size_lem : payload_size bytes ≡ length p.payload
  size_lem = omega (arith, i.size_lt)

  last_at : get_or bytes (payload_size bytes + 11) 0 ≡ b'#'
  last_at =
      ap (λ k. get_or bytes k 0) {y = 11 + length p.payload} (omega (arith, size_lem))
      ∙ sym (get_or-drop 11 (length p.payload) bytes 0)
      ∙ ap (λ xs. get_or xs (length p.payload) 0) (body_of p rest)
      ∙ last_lem p.payload rest

  after_lem : drop (payload_size bytes + 12) bytes ≡ rest
  after_lem =
      ap (λ k. drop k bytes) {y = 11 + (length p.payload + 1)} (omega (arith, size_lem))
      ∙ sym (drop-drop (length p.payload + 1) 11 bytes)
      ∙ ap (drop (length p.payload + 1)) (body_of p rest)
      ∙ sym (drop-drop 1 (length p.payload) (p.payload ++ (b'#' ∷ rest)))
      ∙ ap (drop 1) (drop-append p.payload (b'#' ∷ rest) (length p.payload) refl)

  payload_lem : take (payload_size bytes) (drop 11 bytes) ≡ p.payload
  payload_lem =
      ap (λ xs. take (payload_size bytes) xs) (body_of p rest)
      ∙ take-append p.payload (b'#' ∷ rest) (payload_size bytes) size_lem

  packet_lem : packet_at bytes ≡ p
  packet_lem = ground (arith, of_be16-be16 p.type i.type_lt, of_be32-be32 p.ip i.ip_lt, payload_lem)

  pub frame_of-Found : Found p rest bytes
  frame_of-Found = record {
    magic = refl;
    size = size_lem;
    room = omega (arith, length-append (frame_of p) rest, length-frame_of p);
    last = last_at;
    packet = packet_lem;
    after = after_lem;
  }

pub on_wire-IsPacket : (p : Packet) → IsPacket p → IsPacket (on_wire p)
on_wire-IsPacket p i = elim (Bool-cases (header_includes_ip p.type)) [
  | inl e ↦ rw e i
  | inr e ↦ rw e (record { type_lt = i.type_lt; ip_lt = omega arith; size_lt = i.size_lt })
]

-- If the unread bytes of a well-formed buffer start with the encoding of a packet whose fields
-- fit their widths, `try_decode` returns that packet, with the address 0 for the three types that
-- carry none, and leaves exactly the bytes that follow, in a well-formed buffer.
pub try_decode-encode :
    (p q : Packet) (rest : Bytes) (b : Buffer)
    → IsPacket p
    → IsValid b
    → contents b ≡ encode p ++ rest
    → let r = try_decode b q in (r.0 ≡ ok) × (r.1 ≡ on_wire p) × (contents r.2 ≡ rest) × IsValid r.2
try_decode-encode p q rest b i v e =
    go (frame_of-Found (on_wire p) rest (on_wire-IsPacket p i)) (try_decode_lem b q v)
      (e ∙ ap (λ xs. xs ++ rest) (encode-eq-frame_of p))
  where
    go :
        {bs : Bytes}
        → Found (on_wire p) rest bs
        → Outcome (contents b) b (try_decode b q)
        → contents b ≡ bs
        → let r = try_decode b q in
          (r.0 ≡ ok) × (r.1 ≡ on_wire p) × (contents r.2 ≡ rest) × IsValid r.2
    go f (short_header few a c) eq = absurd (omega (arith, ap length eq, f.room))
    go f (no_magic l odd a c) eq = absurd (odd (ap (λ xs. get_or xs 0 0) eq ∙ f.magic))
    go f (short_frame l m few a c) eq =
        absurd (omega (arith, ap length eq, ap payload_size eq, f.room, f.size))
    go f (no_tail m l odd a c) eq =
        absurd (odd (ap (λ xs. get_or xs (payload_size xs + 11) 0) eq ∙ f.last))
    go f (frame m l t a pk c w) eq = (
      a,
      pk ∙ ap packet_at eq ∙ f.packet,
      c ∙ ap (λ xs. drop (payload_size xs + 12) xs) eq ∙ f.after,
      w,
    )

pub payload_size_append :
    (xs ys : Bytes) → 11 ≤ length xs → payload_size (xs ++ ys) ≡ payload_size xs
payload_size_append xs ys h =
    rw (at 0 (omega arith), at 1 (omega arith), at 2 (omega arith), at 3 (omega arith))
  where
    at : (i : ℕ) → i < 4 → get_or (drop 7 (xs ++ ys)) i 0 ≡ get_or (drop 7 xs) i 0
    at i l =
        get_or-drop 7 i (xs ++ ys) 0
        ∙ get_or-append xs ys (7 + i) 0 (omega arith)
        ∙ sym (get_or-drop 7 i xs 0)

-- A frame that has not arrived whole is waited for: when the unread bytes of a well-formed buffer
-- lack the last bytes, one at least, of the encoding of a packet whose fields fit their widths,
-- `try_decode` asks for more and leaves the buffer as it was.
pub try_decode_prefix :
    (p q : Packet) (x : ℕ) (missing : Bytes) (b : Buffer)
    → IsPacket p
    → IsValid b
    → contents b ++ (x ∷ missing) ≡ encode p
    → ((try_decode b q).0 ≡ need_more) × ((try_decode b q).2 ≡ b)
try_decode_prefix p q x missing b i v e =
    go (frame_of-Found (on_wire p) [] (on_wire-IsPacket p i)) (try_decode_lem b q v)
      (e ∙ encode-eq-frame_of p ∙ sym (append-nil (frame_of (on_wire p))))
  where
    -- The unread bytes do not hold a whole frame.
    whole :
        {bs : Bytes}
        → Found (on_wire p) [] bs
        → contents b ++ (x ∷ missing) ≡ bs
        → payload_size (contents b) + 12 ≤ length (contents b)
        → ⊥
    whole {bs} f eq l = omega (
      arith,
      payload_size_append (contents b) (x ∷ missing) (omega arith),
      ap payload_size eq,
      ap length eq,
      length-append (contents b) (x ∷ missing),
      length-drop (payload_size bs + 12) bs,
      ap length f.after,
    )

    go :
        {bs : Bytes}
        → Found (on_wire p) [] bs
        → Outcome (contents b) b (try_decode b q)
        → contents b ++ (x ∷ missing) ≡ bs
        → ((try_decode b q).0 ≡ need_more) × ((try_decode b q).2 ≡ b)
    go f (short_header few a c) eq = (a, c)
    go f (no_magic l odd a c) eq = absurd (
        odd (
          sym (get_or-append (contents b) (x ∷ missing) 0 0 (omega arith))
          ∙ ap (λ xs. get_or xs 0 0) eq
          ∙ f.magic))
    go f (short_frame l m few a c) eq = (a, c)
    go f (no_tail m l odd a c) eq = absurd (whole f eq l)
    go f (frame m l t a pk c w) eq = absurd (whole f eq l)
