-- ===== src/Server/Protocol/Sound.antt =====
-- server/src/protocol/codec.cpp: what `try_decode` accepts.
use cloud_meeting_client.Server.Buffer.{Buffer}
use cloud_meeting_client.Server.Buffer.Contents.{IsValid, contents}
use cloud_meeting_client.Server.Protocol.{Packet}
use cloud_meeting_client.Server.Protocol.Codec.{try_decode, ok}
use cloud_meeting_client.Server.Protocol.Frames.{
  Outcome, payload_size, packet_at, short_header, no_magic, short_frame, no_tail, frame,
  try_decode_lem,
}
use cloud_meeting_client.Prelude.{
  Bytes, ℕ, AreBytes, get_or, ◌+◌, drop, ◌<◌, ◌≤◌, All-get_or, length, IsByte, ◌≡◌, arith, ◌∷◌,
  be16, be32, All-drop, drop_cons, of_be16, of_be32, get_or-drop, ◌++◌, ◌^◌, ◌∙◌, ap, length-take,
  length-drop, ◌%◌, ap₂, drop-drop, sym, [], take-append-drop, append_assoc, suc,
}
use cloud_meeting_client.Server.Protocol.RoundTrip.{frame_of}

-- Two bytes are the two bytes of their word, and so are four.
module _ (bs : Bytes) (k : ℕ) (a : AreBytes bs) where
  byte_at : (i : ℕ) → get_or (drop k bs) i 0 < 256
  byte_at i = All-get_or IsByte (drop k bs) i 0 (omega arith) (All-drop IsByte k bs a)

  uncons :
      (i : ℕ) → k + i < length bs → drop (k + i) bs ≡ get_or (drop k bs) i 0 ∷ drop (k + i + 1) bs
  uncons i h = ground (arith, drop_cons bs (k + i) 0 h, get_or-drop k i bs 0)

  be16_at : k + 2 ≤ length bs → drop k bs ≡ be16 (of_be16 (drop k bs)) ++ drop (k + 2) bs
  be16_at h = ground (arith, uncons 0, uncons 1, byte_at 0, byte_at 1)

  be32_at : k + 4 ≤ length bs → drop k bs ≡ be32 (of_be32 (drop k bs)) ++ drop (k + 4) bs
  be32_at h =
      ground
        (arith, uncons 0, uncons 1, uncons 2, uncons 3, byte_at 0, byte_at 1, byte_at 2, byte_at 3)

-- A list that reads as a frame is one, with what follows it.
frame_lem :
    (bs : Bytes)
    → AreBytes bs
    → length bs < 2 ^ 32
    → get_or bs 0 0 ≡ b'$'
    → payload_size bs + 12 ≤ length bs
    → get_or bs (payload_size bs + 11) 0 ≡ b'#'
    → bs ≡ frame_of (packet_at bs) ++ drop (payload_size bs + 12) bs
frame_lem bs a small m l t =
    first
    ∙ ap (◌∷◌ b'$') (
        be16_at bs 1 a (omega arith)
        ∙ ap (◌++◌ (be16 p.type)) (
            be32_at bs 3 a (omega arith)
            ∙ ap (◌++◌ (be32 p.ip)) (be32_at bs 7 a (omega arith) ∙ ap₂ ◌++◌ size body)))
  where
    p : Packet
    p = packet_at bs

    n : ℕ
    n = payload_size bs

    first : bs ≡ b'$' ∷ drop 1 bs
    first = drop_cons bs 0 0 (omega arith) ∙ ap (λ x. x ∷ drop 1 bs) m

    length_lem : length p.payload ≡ n
    length_lem = omega (arith, length-take n (drop 11 bs), length-drop 11 bs)

    size : be32 n ≡ be32 (length p.payload % 2 ^ 32)
    size = ap be32 {x = n} (omega (arith, length_lem))

    last : drop n (drop 11 bs) ≡ b'#' ∷ drop (n + 12) bs
    last =
        drop-drop n 11 bs
        ∙ ap (λ k. drop k bs) {x = 11 + n} {y = n + 11} (omega arith)
        ∙ drop_cons bs (n + 11) 0 (omega arith)
        ∙ ap₂ ◌∷◌ t (ap (λ k. drop k bs) {x = suc (n + 11)} (omega arith))

    body : drop 11 bs ≡ (p.payload ++ b'#' ∷ []) ++ drop (n + 12) bs
    body =
        sym (take-append-drop n (drop 11 bs))
        ∙ ap (◌++◌ p.payload) last
        ∙ sym (append_assoc p.payload (b'#' ∷ []) (drop (n + 12) bs))

-- When `try_decode` accepts, on a well-formed buffer with less than 2 ^ 32 unread bytes, the
-- bytes that it consumed are the frame of the packet that it returns (its magic and tail, its
-- type, address, size and payload), and the bytes behind it stay unread.
pub try_decode_sound :
    (b c : Buffer) (p q : Packet)
    → IsValid b
    → AreBytes (contents b)
    → length (contents b) < 2 ^ 32
    → try_decode b q ≡ (ok, p, c)
    → contents b ≡ frame_of p ++ contents c
try_decode_sound b c p q v a small e = go (try_decode_lem b q v)
  where
    go : Outcome (contents b) b (try_decode b q) → contents b ≡ frame_of p ++ contents c
    go (short_header few s u) = ground (arith, e)
    go (no_magic l odd s u) = ground (arith, e)
    go (short_frame l m few s u) = ground (arith, e)
    go (no_tail m l odd s u) = ground (arith, e)
    go (frame m l t s pk d w) =
        frame_lem (contents b) a small m l t
        ∙ ap₂ (λ x y. frame_of x ++ y) (sym pk ∙ ap (λ r. r.1) e) (sym d ∙ ap (λ r. contents r.2) e)
