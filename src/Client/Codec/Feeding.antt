-- ===== src/Client/Codec/Feeding.antt =====
-- messagecodec.cpp: `WireStreamParser::feed`, called with one block after the other.
use cloud_meeting_client.Client.Message.{Message}
use cloud_meeting_client.Client.Codec.Streams.{extract_loop-append, extract_loop-rest}
use cloud_meeting_client.Client.Codec.{Qt, extract_all, feed, max_buffer}
use cloud_meeting_client.Prelude.{
  concat, append-nil, append_assoc, [], List, Bytes, arith, ◌+◌, ◌∷◌, ◌≡◌, ltb-eq-false, ℕ,
  length-append, ◌≤◌, length, refl, ◌++◌, sym,
}

module _ (qt : Qt) where
  open qt use {Image}

  feed_block :
      (buffer block : Bytes) (x : ℕ)
      → length buffer + length (x ∷ block) ≤ max_buffer
      → feed qt buffer (x ∷ block) ≡ extract_all qt (buffer ++ x ∷ block)
  unfolding feed
  feed_block buffer block x h =
      rw (ltb-eq-false max_buffer (length buffer + length (x ∷ block)) h) refl

  feed-rest :
      (buffer block : Bytes)
      → length buffer + length block ≤ max_buffer
      → length (feed qt buffer block).1 ≤ length buffer + length block
  unfolding feed extract_all
  feed-rest buffer [] h = omega arith
  feed-rest buffer (x ∷ block) h = rw (feed_block buffer block x h) (
      omega (
        arith,
        extract_loop-rest qt (length (buffer ++ x ∷ block)) (buffer ++ x ∷ block),
        length-append buffer (x ∷ block),
      ))

  -- One block and then another.
  abbrev pub feed_two : Bytes → Bytes → Bytes → List (Message Image) × Bytes
  feed_two buffer a b =
      let one = feed qt buffer a in let two = feed qt one.1 b in (one.0 ++ two.0, two.1)

  two_blocks :
      (buffer a b : Bytes) (x y : ℕ)
      → length buffer + length (x ∷ a) + length (y ∷ b) ≤ max_buffer
      → feed_two buffer (x ∷ a) (y ∷ b) ≡ feed qt buffer ((x ∷ a) ++ (y ∷ b))
  unfolding extract_all
  two_blocks buffer a b x y h =
      let first = extract_all qt (buffer ++ x ∷ a) in
      let small = extract_loop-rest qt (length (buffer ++ x ∷ a)) (buffer ++ x ∷ a) in
      rw
        (
          feed_block buffer a x (omega arith),
          feed_block buffer (a ++ y ∷ b) x (omega (arith, length-append a (y ∷ b))),
          feed_block first.1 b y (omega (arith, small, length-append buffer (x ∷ a))),
          sym (append_assoc buffer (x ∷ a) (y ∷ b)),
        )
        (sym (
          extract_loop-append qt (length (buffer ++ x ∷ a)) (buffer ++ x ∷ a) (y ∷ b)
            (omega arith)))

  -- Where the blocks fit into the buffer, two blocks one after the other give the messages, and leave
  -- the buffer, of the two blocks in one.
  pub feed-append :
      (buffer a b : Bytes)
      → length buffer + length a + length b ≤ max_buffer
      → feed_two buffer a b ≡ feed qt buffer (a ++ b)
  unfolding feed
  feed-append buffer [] b h = refl
  feed-append buffer (x ∷ a) [] h = rw (append-nil a, append-nil (feed qt buffer (x ∷ a)).0) refl
  feed-append buffer (x ∷ a) (y ∷ b) h = two_blocks buffer a b x y h

  -- Every block in its turn.
  abbrev pub feed_all : Bytes → List Bytes → List (Message Image) × Bytes
  feed_all buffer [] = ([], buffer)
  feed_all buffer (block ∷ blocks) =
      let one = feed qt buffer block in
      let rest = feed_all one.1 blocks in (one.0 ++ rest.0, rest.1)

  -- However the bytes of a stream are cut into blocks, the parser gives the messages that it
  -- gives for them in one block and keeps the same rest, when the buffer and the bytes are at
  -- most 4 MiB together.
  pub feed_all-concat :
      (blocks : List Bytes) (buffer : Bytes)
      → length buffer + length (concat blocks) ≤ max_buffer
      → feed_all buffer blocks ≡ feed qt buffer (concat blocks)
  unfolding feed
  feed_all-concat [] buffer h = refl
  feed_all-concat (block ∷ blocks) buffer h =
      let small = feed-rest buffer block (omega (arith, length-append block (concat blocks))) in
      rw
        (feed_all-concat blocks (feed qt buffer block).1
          (omega (arith, small, length-append block (concat blocks))))
        (feed-append buffer block (concat blocks)
          (omega (arith, length-append block (concat blocks))))
