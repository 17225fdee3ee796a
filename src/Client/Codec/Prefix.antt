-- ===== src/Client/Codec/Prefix.antt =====
-- messagecodec.cpp: what a decoder reads in front of other bytes.
use cloud_meeting_client.Client.Codec.{
  Qt, decode_wire_packet, decode_image_recv, decode_text_recv, decode_audio_recv,
  decode_partner_join2, decode_create_meeting_response, decode_join_meeting_response, be_words,
  of_le32, extract_one, packet_size, cast_type,
}
use cloud_meeting_client.Prelude.{
  get_or-append, ◌≡◌, ap₂, ◌∙◌, length, sym, drop-append_le, of_be32, ℕ, take, take-append_le, ◌++◌,
  ◌≤◌, Bytes, of_be16, ◌∷◌, ◌<◌, ◌+◌, zero, suc, get_or, refl, drop, get_or-drop, length-drop, ◌*◌,
  arith, Bool-cases, ◌/◌, inl, leb, inr,
}

-- What stands in front of `ys` is read the same with and without it.
module _ (xs ys : Bytes) where
  get_at : (k i : ℕ) → k + i < length xs → get_or (drop k (xs ++ ys)) i 0 ≡ get_or (drop k xs) i 0
  get_at k i h =
      get_or-drop k i (xs ++ ys) 0 ∙ get_or-append xs ys (k + i) 0 h ∙ sym (get_or-drop k i xs 0)

  pub word_at : (k : ℕ) → k + 4 ≤ length xs → of_be32 (drop k (xs ++ ys)) ≡ of_be32 (drop k xs)
  word_at k h = rw (
    get_at k 0 (omega arith),
    get_at k 1 (omega arith),
    get_at k 2 (omega arith),
    get_at k 3 (omega arith),
  )

  little_word_at : (k : ℕ) → k + 4 ≤ length xs → of_le32 (drop k (xs ++ ys)) ≡ of_le32 (drop k xs)
  little_word_at k h = rw (
    get_at k 0 (omega arith),
    get_at k 1 (omega arith),
    get_at k 2 (omega arith),
    get_at k 3 (omega arith),
  )

  half_at : (k : ℕ) → k + 2 ≤ length xs → of_be16 (drop k (xs ++ ys)) ≡ of_be16 (drop k xs)
  half_at k h = rw (get_at k 0 (omega arith), get_at k 1 (omega arith))

  body_at : (k n : ℕ) → k + n ≤ length xs → take n (drop k (xs ++ ys)) ≡ take n (drop k xs)
  body_at k n h =
      rw (drop-append_le xs ys k (omega arith))
        (take-append_le (drop k xs) ys n (omega (arith, length-drop k xs)))

be_words-append :
    (n : ℕ) (xs ys : Bytes) → 4 * n ≤ length xs → be_words n (xs ++ ys) ≡ be_words n xs
unfolding be_words
be_words-append zero xs ys h = refl
be_words-append (suc n) xs ys h = ap₂ ◌∷◌ (word_at xs ys 0 (omega arith)) (
    rw (drop-append_le xs ys 4 (omega arith))
      (be_words-append n (drop 4 xs) ys (omega (arith, length-drop 4 xs))))

module _ (qt : Qt) where
  open qt use {Image}

  same_create_response :
      (xs ys : Bytes) (n : ℕ)
      → 11 + n ≤ length xs
      → decode_create_meeting_response qt (drop 11 (xs ++ ys)) n
        ≡ decode_create_meeting_response qt (drop 11 xs) n
  unfolding decode_create_meeting_response
  same_create_response xs ys n h = elim (Bool-cases (leb 4 n)) [
    | inl e ↦ rw (e, word_at xs ys 11 (ground arith)) refl
    | inr e ↦ rw e refl
  ]

  same_join_response :
      (xs ys : Bytes) (n : ℕ)
      → 11 + n ≤ length xs
      → decode_join_meeting_response qt (drop 11 (xs ++ ys)) n
        ≡ decode_join_meeting_response qt (drop 11 xs) n
  unfolding decode_join_meeting_response
  same_join_response xs ys n h = elim (Bool-cases (leb 4 n)) [
    | inl e ↦ rw (e, little_word_at xs ys 11 (ground arith)) refl
    | inr e ↦ rw e refl
  ]

  same_partners :
      (xs ys : Bytes) (n : ℕ)
      → 11 + n ≤ length xs
      → decode_partner_join2 qt (drop 11 (xs ++ ys)) n ≡ decode_partner_join2 qt (drop 11 xs) n
  unfolding decode_partner_join2
  same_partners xs ys n h =
      rw
        (
          drop-append_le xs ys 11 (omega arith),
          be_words-append (n / 4) (drop 11 xs) ys (omega (arith, length-drop 11 xs)),
        )
        refl

  same_image :
      (xs ys : Bytes) (n ip : ℕ)
      → 11 + n ≤ length xs
      → decode_image_recv qt (drop 11 (xs ++ ys)) n ip ≡ decode_image_recv qt (drop 11 xs) n ip
  unfolding decode_image_recv
  same_image xs ys n ip h = rw (body_at xs ys 11 n h) refl

  same_text :
      (xs ys : Bytes) (n ip : ℕ)
      → 11 + n ≤ length xs
      → decode_text_recv qt (drop 11 (xs ++ ys)) n ip ≡ decode_text_recv qt (drop 11 xs) n ip
  unfolding decode_text_recv
  same_text xs ys n ip h = rw (body_at xs ys 11 n h) refl

  same_audio :
      (xs ys : Bytes) (n ip : ℕ)
      → 11 + n ≤ length xs
      → decode_audio_recv qt (drop 11 (xs ++ ys)) n ip ≡ decode_audio_recv qt (drop 11 xs) n ip
  unfolding decode_audio_recv
  same_audio xs ys n ip h = rw (body_at xs ys 11 n h) refl

  decode_wire_packet-append :
      (xs ys : Bytes) (n t : ℕ)
      → 11 + n ≤ length xs
      → decode_wire_packet qt (xs ++ ys) n t ≡ decode_wire_packet qt xs n t
  unfolding decode_wire_packet
  decode_wire_packet-append xs ys n t h =
      rw
        (
          word_at xs ys 3 (omega arith),
          same_create_response xs ys n h,
          same_join_response xs ys n h,
          same_partners xs ys n h,
          same_image xs ys n (of_be32 (drop 3 xs)) h,
          same_text xs ys n (of_be32 (drop 3 xs)) h,
          same_audio xs ys n (of_be32 (drop 3 xs)) h,
        )
        refl

  pub extract_one-append :
      (xs ys : Bytes)
      → 11 ≤ length xs
      → packet_size xs ≤ length xs
      → extract_one qt (xs ++ ys) ≡ extract_one qt xs
  unfolding extract_one
  extract_one-append xs ys h size =
      rw
        (
          word_at xs ys 7 (omega arith),
          half_at xs ys 1 (omega arith),
          get_or-append xs ys 0 0 (omega arith),
          get_or-append xs ys (11 + of_be32 (drop 7 xs)) 0 (omega arith),
          decode_wire_packet-append xs ys (of_be32 (drop 7 xs)) (cast_type (of_be16 (drop 1 xs)))
              (omega arith),
        )
        refl
