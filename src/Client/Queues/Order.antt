-- ===== src/Client/Queues/Order.antt =====
-- message.cpp: the order in which the send queue hands its messages out.
use cloud_meeting_client.Client.Message.{
  Message, MessagePriority, control, audio, text, video, send_priority,
}
use cloud_meeting_client.Client.Queues.{
  PriorityQueue, pop_buckets, pop, push, push_to, trim, push_bounded, queue_maxsize,
  audio_queue_maxsize, video_queue_maxsize,
}
use cloud_meeting_client.Prelude.{
  inr, refl, Option, inl, ◌⊎◌, ◌++◌, ℕ, List, [], none, All, ◌∷◌, some, ◌≡◌, Bool, ◌≤◌, All-append,
  arith, subst, true, ap, false,
}

abbrev pub rank : MessagePriority → ℕ
rank control = 0
rank audio = 1
rank text = 2
rank video = 3

module _ {Image : Type 0} where
  -- The messages of a queue as they will be popped.
  abbrev pub to_list : PriorityQueue Image → List (Message Image)
  to_list q = q.control_bucket ++ (q.audio_bucket ++ (q.text_bucket ++ q.video_bucket))

  -- Each bucket holds messages of its own priority.
  abbrev pub HasRank : ℕ → Message Image → Type 0
  HasRank n m = rank (send_priority m) ≡ n

  pub record IsSorted (q : PriorityQueue Image) : Type 0 where
    pub control_all : All (HasRank 0) q.control_bucket
    pub audio_all : All (HasRank 1) q.audio_bucket
    pub text_all : All (HasRank 2) q.text_bucket
    pub video_all : All (HasRank 3) q.video_bucket

  -- How a pop of the messages `xs` ends.
  abbrev pub Pops : List (Message Image) → Option (Message Image) × PriorityQueue Image → Type 0
  Pops xs r =
      ((xs ≡ []) × (r.0 ≡ none) × (to_list r.1 ≡ []))
      ⊎ ((m : Message Image) × (xs ≡ m ∷ to_list r.1) × (r.0 ≡ some m))

  pop_buckets-Pops :
      (c a t v : List (Message Image)) → Pops (c ++ (a ++ (t ++ v))) (pop_buckets c a t v)
  unfolding pop_buckets
  pop_buckets-Pops (m ∷ c) a t v = inr (m, refl, refl)
  pop_buckets-Pops [] (m ∷ a) t v = inr (m, refl, refl)
  pop_buckets-Pops [] [] (m ∷ t) v = inr (m, refl, refl)
  pop_buckets-Pops [] [] [] (m ∷ v) = inr (m, refl, refl)
  pop_buckets-Pops [] [] [] [] = inl (refl, refl, refl)

  pub pop-Pops : (q : PriorityQueue Image) → Pops (to_list q) (pop q)
  unfolding pop
  pop-Pops q = pop_buckets-Pops q.control_bucket q.audio_bucket q.text_bucket q.video_bucket

  abbrev pub AtLeast : ℕ → Message Image → Type 0
  AtLeast n m = n ≤ rank (send_priority m)

  above : (k n : ℕ) (xs : List (Message Image)) → k ≤ n → All (HasRank n) xs → All (AtLeast k) xs
  above k n [] h a = tt
  above k n (x ∷ xs) h a = (omega (arith, a.0), above k n xs h a.1)

  All-above :
      (k : ℕ) (c a t v : List (Message Image))
      → All (AtLeast k) c
      → All (AtLeast k) a
      → All (AtLeast k) t
      → All (AtLeast k) v
      → All (AtLeast k) (c ++ (a ++ (t ++ v)))
  All-above k c a t v hc ha ht hv =
      All-append (AtLeast k) c (a ++ (t ++ v)) hc
        (All-append (AtLeast k) a (t ++ v) ha (All-append (AtLeast k) t v ht hv))

  -- What a pop leaves is in order, and of no higher priority than what it took.
  abbrev Leaves : Option (Message Image) × PriorityQueue Image → Type 0
  Leaves (none, q) = IsSorted q
  Leaves (some m, q) = IsSorted q × All (AtLeast (rank (send_priority m))) (to_list q)

  pop_buckets-Leaves :
      (c a t v : List (Message Image))
      → IsSorted
          (record { control_bucket = c; audio_bucket = a; text_bucket = t; video_bucket = v })
      → Leaves (pop_buckets c a t v)
  unfolding pop_buckets
  pop_buckets-Leaves (m ∷ c) a t v s = (
    record {
      control_all = s.control_all.1;
      audio_all = s.audio_all;
      text_all = s.text_all;
      video_all = s.video_all;
    },
    rw s.control_all.0 (
        All-above 0 c a t v (above 0 0 c (omega arith) s.control_all.1)
          (above 0 1 a (omega arith) s.audio_all) (above 0 2 t (omega arith) s.text_all)
          (above 0 3 v (omega arith) s.video_all)),
  )
  pop_buckets-Leaves [] (m ∷ a) t v s = (
    record {
      control_all = tt;
      audio_all = s.audio_all.1;
      text_all = s.text_all;
      video_all = s.video_all;
    },
    rw s.audio_all.0 (
        All-above 1 [] a t v tt (above 1 1 a (omega arith) s.audio_all.1)
          (above 1 2 t (omega arith) s.text_all) (above 1 3 v (omega arith) s.video_all)),
  )
  pop_buckets-Leaves [] [] (m ∷ t) v s = (
    record { control_all = tt; audio_all = tt; text_all = s.text_all.1; video_all = s.video_all },
    rw s.text_all.0 (
        All-above 2 [] [] t v tt tt (above 2 2 t (omega arith) s.text_all.1)
          (above 2 3 v (omega arith) s.video_all)),
  )
  pop_buckets-Leaves [] [] [] (m ∷ v) s = (
    record { control_all = tt; audio_all = tt; text_all = tt; video_all = s.video_all.1 },
    rw s.video_all.0 (All-above 3 [] [] [] v tt tt tt (above 3 3 v (omega arith) s.video_all.1)),
  )
  pop_buckets-Leaves [] [] [] [] s = s

  -- A pop that returns a message, from a queue whose buckets hold the messages of their own
  -- priority, takes the first of the queue as listed by priority and age: the rest follows in the
  -- same order, none of it has a higher priority, and the buckets still hold the messages of
  -- their own priority.
  pub pop_lem :
      (q r : PriorityQueue Image) (m : Message Image)
      → IsSorted q
      → pop q ≡ (some m, r)
      → (to_list q ≡ m ∷ to_list r)
        × All (AtLeast (rank (send_priority m))) (to_list r)
        × IsSorted r
  unfolding pop
  pop_lem q r m s e = go (pop q) e (pop-Pops q) (
      pop_buckets-Leaves q.control_bucket q.audio_bucket q.text_bucket q.video_bucket (record {
        control_all = s.control_all;
        audio_all = s.audio_all;
        text_all = s.text_all;
        video_all = s.video_all;
      }))
    where
      go :
          (out : Option (Message Image) × PriorityQueue Image)
          → out ≡ (some m, r)
          → Pops (to_list q) out
          → Leaves out
          → (to_list q ≡ m ∷ to_list r)
            × All (AtLeast (rank (send_priority m))) (to_list r)
            × IsSorted r
      go out f (inl (n, o, t)) l = ground (arith, f)
      go out f (inr (x, t, o)) l =
          let h : Leaves (some m, r) = subst Leaves f l in (ground (arith, f), h.1, h.0)

  trim-All :
      (P : Message Image → Type 0) (b : List (Message Image)) (n : ℕ) → All P b → All P (trim b n)
  unfolding trim
  trim-All P [] n h = h
  trim-All P (m ∷ b) n h = ground (arith, trim-All P b n h.1)

  push_bounded-All :
      (P : Message Image → Type 0) (b : List (Message Image)) (m : Message Image) (n : ℕ)
      → All P b
      → P m
      → All P (push_bounded b m n)
  unfolding push_bounded
  push_bounded-All P b m n h p =
      ground (arith, All-append P (trim b n) (m ∷ []) (trim-All P b n h) (p, tt))

  push_to-IsSorted :
      (p : MessagePriority) (msg : Message Image) (q : PriorityQueue Image)
      → send_priority msg ≡ p
      → IsSorted q
      → IsSorted (push_to p msg q)
  unfolding push_to
  push_to-IsSorted control msg q e s = record {
    control_all =
        push_bounded-All (HasRank 0) q.control_bucket msg queue_maxsize s.control_all (ap rank e);
    audio_all = s.audio_all;
    text_all = s.text_all;
    video_all = s.video_all;
  }
  push_to-IsSorted audio msg q e s = record {
    control_all = s.control_all;
    audio_all =
        push_bounded-All (HasRank 1) q.audio_bucket msg audio_queue_maxsize s.audio_all (ap rank e);
    text_all = s.text_all;
    video_all = s.video_all;
  }
  push_to-IsSorted text msg q e s = record {
    control_all = s.control_all;
    audio_all = s.audio_all;
    text_all = push_bounded-All (HasRank 2) q.text_bucket msg queue_maxsize s.text_all (ap rank e);
    video_all = s.video_all;
  }
  push_to-IsSorted video msg q e s = record {
    control_all = s.control_all;
    audio_all = s.audio_all;
    text_all = s.text_all;
    video_all =
        push_bounded-All (HasRank 3) q.video_bucket msg video_queue_maxsize s.video_all (ap rank e);
  }

  -- A push, whether it gets the lock or not, leaves a queue whose buckets hold the messages of
  -- their own priority such a queue.
  pub push-IsSorted :
      (locked : Bool) (msg : Message Image) (q : PriorityQueue Image)
      → IsSorted q
      → IsSorted (push locked (some msg) q)
  unfolding push
  push-IsSorted false msg q s = s
  push-IsSorted true msg q s = push_to-IsSorted (send_priority msg) msg q refl s
