-- ===== src/Client/Hub/Draining.antt =====
-- client/src/network/messageNet/messagehub.cpp: the worker of the current epoch, undisturbed.
use cloud_meeting_client.Client.Hub.Worker.{
  testing, popping, Phase, next_phase, Post, look_at_epoch, Out, post_frame, is_text, popped,
  checked,
}
use cloud_meeting_client.Prelude.{
  ℕ, [], ◌∷◌, if◌then◌else◌, some, zero, ◌≡◌, ◌++◌, true, List, suc, inl, length, ◌+◌, refl, ◌*◌,
  ==_refl, Bool-cases, inr, ap, none, arith,
}
use cloud_meeting_client.Client.Codec.{Qt, encode_wire_frame}
use cloud_meeting_client.Client.Message.{Message, kind}
use cloud_meeting_client.Client.Hub.{MessageHub}
use cloud_meeting_client.Server.Connection.{is_empty}
use cloud_meeting_client.Client.Queues.{PriorityQueue, pop, MessageQueue}
use cloud_meeting_client.Client.Queues.Order.{pop-Pops, to_list}

module _ (qt : Qt) where
  open qt use {Image}

  -- What is posted for the messages of a list.
  abbrev pub posts_of : ℕ → List (Message Image) → List Post
  posts_of local_ip [] = []
  posts_of local_ip (m ∷ ms) =
      let frame = encode_wire_frame qt m local_ip in
      let rest = posts_of local_ip ms in
      if is_empty frame then rest else record { frame = frame; text_sent = is_text (kind m) } ∷ rest

  -- Steps of the worker.
  unfoldable pub work_on : ℕ → ℕ → ℕ → Phase Image → MessageHub Image → Out qt
  work_on zero local_ip epoch phase hub = (phase, hub, [])
  work_on (suc steps) local_ip epoch phase hub =
      let (next, after, posts) = next_phase qt true local_ip epoch phase hub in
      let (last, end, more) = work_on steps local_ip epoch next after in (last, end, posts ++ more)

  -- A hub whose worker runs, with a connection.
  abbrev pub running : PriorityQueue Image → MessageQueue Image → ℕ → MessageHub Image
  running queue audio epoch = record {
    send_queue = queue;
    recv_audio_queue = audio;
    has_connection = true;
    send_running = true;
    send_epoch = epoch;
  }

  module _ (local_ip epoch : ℕ) (audio : MessageQueue Image) where
    tested :
        (queue : PriorityQueue Image)
        → next_phase qt true local_ip epoch testing (running queue audio epoch)
          ≡ (popping, running queue audio epoch, [])
    unfolding next_phase
    tested queue = rw (==_refl epoch) refl

    popped_one :
        (queue rest : PriorityQueue Image) (m : Message Image)
        → pop queue ≡ (some m, rest)
        → next_phase qt true local_ip epoch popping (running queue audio epoch)
          ≡ (popped (some m), running rest audio epoch, [])
    unfolding next_phase
    popped_one queue rest m p = rw p refl

    looked :
        (queue : PriorityQueue Image) (m : Message Image)
        → next_phase qt true local_ip epoch (popped (some m)) (running queue audio epoch)
          ≡ (checked m, running queue audio epoch, [])
    unfolding next_phase look_at_epoch
    looked queue m = rw (==_refl epoch) refl

    posted :
        (queue : PriorityQueue Image) (m : Message Image)
        → next_phase qt true local_ip epoch (checked m) (running queue audio epoch)
          ≡ (testing, running queue audio epoch, posts_of local_ip (m ∷ []))
    unfolding next_phase post_frame
    posted queue m = elim (Bool-cases (is_empty (encode_wire_frame qt m local_ip))) [
      | inl e ↦ rw e refl
      | inr e ↦ rw e refl
    ]

    -- One message: the test, the pop, the look at the epoch and the post.
    one_round :
        (steps : ℕ) (m : Message Image) (queue rest : PriorityQueue Image)
        → pop queue ≡ (some m, rest)
        → (work_on
            (suc (suc (suc (suc steps))))
            local_ip
            epoch
            testing
            (running queue audio epoch)).2
          ≡ posts_of local_ip (m ∷ [])
            ++ (work_on steps local_ip epoch testing (running rest audio epoch)).2
    unfolding work_on
    one_round steps m queue rest p =
        rw (tested queue, popped_one queue rest m p, looked rest m, posted rest m) refl

    posts_of-cons :
        (m : Message Image) (ms : List (Message Image))
        → posts_of local_ip (m ∷ []) ++ posts_of local_ip ms ≡ posts_of local_ip (m ∷ ms)
    posts_of-cons m ms = elim (Bool-cases (is_empty (encode_wire_frame qt m local_ip))) [
      | inl e ↦ rw e refl
      | inr e ↦ rw e refl
    ]

    popped_nothing :
        (queue : PriorityQueue Image)
        → to_list queue ≡ []
        → (rest : PriorityQueue Image) × (next_phase qt true local_ip epoch popping
              (running queue audio epoch)
            ≡ (popped none, running rest audio epoch, []))
          × (to_list rest ≡ [])
    unfolding next_phase
    popped_nothing queue h = elim (pop-Pops queue) [
      | inl (e, o, t) ↦ ((pop queue).1, rw o refl, t)
      | inr (m, e, o) ↦ absurd (cc (e, h))
    ]

    looked_at_nothing :
        (queue : PriorityQueue Image)
        → next_phase qt true local_ip epoch (popped none) (running queue audio epoch)
          ≡ (testing, running queue audio epoch, [])
    unfolding next_phase look_at_epoch
    looked_at_nothing queue = rw (==_refl epoch) refl

    -- On an empty queue the worker goes around without a post.
    idle :
        (steps : ℕ) (queue : PriorityQueue Image)
        → to_list queue ≡ []
        → ((work_on steps local_ip epoch testing (running queue audio epoch)).2 ≡ [])
          × ((work_on steps local_ip epoch popping (running queue audio epoch)).2 ≡ [])
          × ((work_on steps local_ip epoch (popped none) (running queue audio epoch)).2 ≡ [])
    unfolding work_on
    idle zero queue h = (refl, refl, refl)
    idle (suc steps) queue h =
        let (rest, e, t) = popped_nothing queue h in
        (
          rw (tested queue) (idle steps queue h).1,
          rw e (idle steps rest t).2,
          rw (looked_at_nothing queue) (idle steps queue h).0,
        )

    round_of_four : (n extra : ℕ) → suc n * 4 + extra ≡ suc (suc (suc (suc (n * 4 + extra))))
    round_of_four n extra = omega arith

  -- The worker of the current epoch, undisturbed on a running hub with a connection, posts the frames
  -- of the messages of the queue in the order of their priorities and, within one, of their arrival,
  -- each once and nothing else, when it makes at least four steps for each of them; a message
  -- without an encoding is left out.
  pub work_on-posts_of :
      (local_ip epoch : ℕ) (audio : MessageQueue Image) (n extra : ℕ) (queue : PriorityQueue Image)
      → length (to_list queue) ≡ n
      → (work_on (n * 4 + extra) local_ip epoch testing (running queue audio epoch)).2
        ≡ posts_of local_ip (to_list queue)
  work_on-posts_of local_ip epoch audio zero extra queue h = elim (pop-Pops queue) [
    | inl (e, o, t) ↦ rw e (idle local_ip epoch audio (zero * 4 + extra) queue e).0
    | inr (m, e, o) ↦ absurd (omega (arith, h, ap length e))
  ]
  work_on-posts_of local_ip epoch audio (suc n) extra queue h = elim (pop-Pops queue) [
    | inl (e, o, t) ↦ absurd (omega (arith, h, ap length e))
    | inr (m, e, o) ↦
        let rest = (pop queue).1 in
        let p : pop queue ≡ (some m, rest) = ap (λ x. (x, rest)) o in
        rw
          (
            round_of_four n extra,
            one_round local_ip epoch audio (n * 4 + extra) m queue rest p,
            work_on-posts_of local_ip epoch audio n extra rest (omega (arith, h, ap length e)),
            e,
          )
          (posts_of-cons local_ip epoch audio m (to_list rest))
  ]
