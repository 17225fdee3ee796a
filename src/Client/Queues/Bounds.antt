-- ===== src/Client/Queues/Bounds.antt =====
-- client/src/network/messageNet/message.cpp: the sizes of the buckets of the send queue.
use cloud_meeting_client.Client.Message.{
  Message, MessagePriority, control, audio, text, video, send_priority,
}
use cloud_meeting_client.Client.Queues.{
  queue_maxsize, audio_queue_maxsize, video_queue_maxsize, PriorityQueue, trim, push_bounded,
  push_to, push, pop_buckets, pop, clear, clear_video,
}
use cloud_meeting_client.Prelude.{
  inl, ◌-◌, drop_nil, ◌++◌, drop, inr, Bool, suc, Bool-cases, ◌≡◌, Option, [], ◌≤◌, false, some,
  List, true, none, length-drop, drop-append_le, ◌+◌, ◌∷◌, length-append, ℕ, length, ◌==◌, ◌<◌,
  arith, leb, sym,
}

module _ {Image : Type 0} where
  -- The loop drops what is over, from the old end.
  trim-eq-drop : (b : List (Message Image)) (n : ℕ) → 0 < n → trim b n ≡ drop (length b + 1 - n) b
  unfolding trim
  trim-eq-drop [] n h = sym (drop_nil (length {A = Message Image} [] + 1 - n))
  trim-eq-drop (m ∷ b) n h = elim (Bool-cases (leb n (length (m ∷ b)))) [
    | inl full ↦
        let e : length (m ∷ b) + 1 - n ≡ suc (length b + 1 - n) = ground arith in
        rw (full, trim) (rw e (trim-eq-drop b n h))
    | inr space ↦ let e : length (m ∷ b) + 1 - n ≡ 0 = ground arith in rw (space, trim) (rw e)
  ]

  -- `push_bounded` with a limit `n` above 0 keeps the newest `n` of the old messages and the new
  -- one, in their order.
  pub push_bounded_lem :
      (b : List (Message Image)) (msg : Message Image) (n : ℕ)
      → 0 < n
      → push_bounded b msg n ≡ drop (length b + 1 - n) (b ++ msg ∷ [])
  unfolding push_bounded
  push_bounded_lem b msg n h =
      let e : (n == 0) ≡ false = ground arith in
      rw (e, trim-eq-drop b n h)
        (sym (drop-append_le b (msg ∷ []) (length b + 1 - n) (omega arith)))

  length-push_bounded :
      (b : List (Message Image)) (msg : Message Image) (n : ℕ)
      → 0 < n
      → length (push_bounded b msg n) ≤ n
  length-push_bounded b msg n h =
      rw (push_bounded_lem b msg n h)
        (omega (arith, length-drop (length b + 1 - n) (b ++ msg ∷ []), length-append b (msg ∷ [])))

  pub record IsBounded (q : PriorityQueue Image) : Type 0 where
    pub control_le : length q.control_bucket ≤ queue_maxsize
    pub audio_le : length q.audio_bucket ≤ audio_queue_maxsize
    pub text_le : length q.text_bucket ≤ queue_maxsize
    pub video_le : length q.video_bucket ≤ video_queue_maxsize

-- What threads do to the send queue, each with whether it got the lock.
pub data Use (Image : Type 0) : Type 0 where
  pushes : Bool → Option (Message Image) → Use Image
  pops : Use Image
  clears : Bool → Use Image
  clears_video : Bool → Use Image

module _ {Image : Type 0} where
  unfoldable pub apply : Use Image → PriorityQueue Image → PriorityQueue Image
  apply (pushes locked msg) q = push locked msg q
  apply pops q = (pop q).1
  apply (clears locked) q = clear locked q
  apply (clears_video locked) q = clear_video locked q

  unfoldable pub apply_all : List (Use Image) → PriorityQueue Image → PriorityQueue Image
  apply_all [] q = q
  apply_all (u ∷ us) q = apply_all us (apply u q)

  push_to-IsBounded :
      (p : MessagePriority) (msg : Message Image) (q : PriorityQueue Image)
      → IsBounded q
      → IsBounded (push_to p msg q)
  unfolding push_to
  push_to-IsBounded control msg q v =
      omega (arith, length-push_bounded q.control_bucket msg queue_maxsize (omega arith))
  push_to-IsBounded audio msg q v =
      omega (arith, length-push_bounded q.audio_bucket msg audio_queue_maxsize (omega arith))
  push_to-IsBounded text msg q v =
      omega (arith, length-push_bounded q.text_bucket msg queue_maxsize (omega arith))
  push_to-IsBounded video msg q v =
      omega (arith, length-push_bounded q.video_bucket msg video_queue_maxsize (omega arith))

  pop_buckets-IsBounded :
      (c a t v : List (Message Image))
      → IsBounded
          (record { control_bucket = c; audio_bucket = a; text_bucket = t; video_bucket = v })
      → IsBounded (pop_buckets c a t v).1
  unfolding pop_buckets
  pop_buckets-IsBounded (m ∷ c) a t v b = omega arith
  pop_buckets-IsBounded [] (m ∷ a) t v b = omega arith
  pop_buckets-IsBounded [] [] (m ∷ t) v b = omega arith
  pop_buckets-IsBounded [] [] [] (m ∷ v) b = omega arith
  pop_buckets-IsBounded [] [] [] [] b = b

  apply-IsBounded : (u : Use Image) (q : PriorityQueue Image) → IsBounded q → IsBounded (apply u q)
  unfolding apply push pop clear clear_video
  apply-IsBounded (pushes locked none) q v = v
  apply-IsBounded (pushes true (some msg)) q v = push_to-IsBounded (send_priority msg) msg q v
  apply-IsBounded (pushes false (some msg)) q v = v
  apply-IsBounded pops q v =
      pop_buckets-IsBounded q.control_bucket q.audio_bucket q.text_bucket q.video_bucket (record {
        control_le = v.control_le;
        audio_le = v.audio_le;
        text_le = v.text_le;
        video_le = v.video_le;
      })
  apply-IsBounded (clears true) q v = omega arith
  apply-IsBounded (clears false) q v = v
  apply-IsBounded (clears_video true) q v = omega arith
  apply-IsBounded (clears_video false) q v = v

  -- In every history of pushes, pops and clears a send queue that is within its sizes stays so:
  -- at most 1500 control messages, 64 of audio, 1500 of text and 3 of video.
  pub apply_all-IsBounded :
      (us : List (Use Image)) (q : PriorityQueue Image) → IsBounded q → IsBounded (apply_all us q)
  unfolding apply_all
  apply_all-IsBounded [] q v = v
  apply_all-IsBounded (u ∷ us) q v = apply_all-IsBounded us (apply u q) (apply-IsBounded u q v)
