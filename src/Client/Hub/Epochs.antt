-- ===== src/Client/Hub/Epochs.antt =====
-- client/src/network/messageNet/messagehub.cpp: a worker of an earlier epoch beside the threads that
-- came after it.
use cloud_meeting_client.Client.Hub.Worker.{
  testing, popping, finished, Worker, Phase, next_phase, look_at_epoch, checked, Post, post_frame,
  popped,
}
use cloud_meeting_client.Prelude.{
  ◌∷◌, ◌<◌, arith, refl, ◌*◌, length, List, Option, ◌++◌, Bool, ◌^◌, ◌≤◌, ◌≡◌, length-append, ℕ,
  ◌+◌, [],
}
use cloud_meeting_client.Client.Message.{Message}
use cloud_meeting_client.Client.Codec.{Qt}
use cloud_meeting_client.Client.Queues.{PriorityQueue}
use cloud_meeting_client.Client.Hub.{
  enqueue_send, MessageHub, clear_queues, clear_pending_video, start, signal_send_stop,
  start_send_worker,
}

-- What happens next: a step of the worker, or what another thread does to the hub. A later worker pops
-- from the queue, which then is `queue_changed`.
pub data Action (Image : Type 0) : Type 0 where
  work : (locked : Bool) → (local_ip : ℕ) → Action Image
  enqueued : (locked : Bool) → Option (Message Image) → Action Image
  cleared : (send_locked audio_locked : Bool) → Action Image
  video_cleared : (locked : Bool) → Action Image
  queue_changed : PriorityQueue Image → Action Image
  connection_set : Bool → Action Image
  stopped started : Action Image

module _ (qt : Qt) where
  open qt use {Image}

  unfoldable pub act :
      Action Image → Worker Image → MessageHub Image → Worker Image × MessageHub Image × List Post
  act (work locked local_ip) w hub =
      let (phase, after, posts) = next_phase qt locked local_ip w.epoch w.phase hub in
      (record w { phase = phase }, after, posts)
  act (enqueued locked msg) w hub = (w, enqueue_send locked msg hub, [])
  act (cleared send_locked audio_locked) w hub = (w, clear_queues send_locked audio_locked hub, [])
  act (video_cleared locked) w hub = (w, clear_pending_video locked hub, [])
  act (queue_changed queue) w hub = (w, record hub { send_queue = queue }, [])
  act (connection_set b) w hub = (w, start b hub, [])
  act stopped w hub = (w, signal_send_stop hub, [])
  act started w hub = (w, start_send_worker hub, [])

  -- The frames that the worker posts.
  unfoldable pub act_all : List (Action Image) → Worker Image → MessageHub Image → List Post
  act_all [] w hub = []
  act_all (a ∷ actions) w hub =
      let (next, after, posts) = act a w hub in posts ++ act_all actions next after

  -- The message that a worker may still send.
  abbrev pub in_hand : Phase Image → ℕ
  in_hand (checked m) = 1
  in_hand _ = 0

  superseded_step :
      (locked : Bool) (local_ip epoch : ℕ) (phase : Phase Image) (hub : MessageHub Image)
      → epoch < hub.send_epoch
      → let (next, after, posts) = next_phase qt locked local_ip epoch phase hub in
        (after.send_epoch ≡ hub.send_epoch) × (length posts + in_hand next ≤ in_hand phase)
  unfolding next_phase look_at_epoch post_frame
  superseded_step locked local_ip epoch testing hub h = ground arith
  superseded_step locked local_ip epoch popping hub h = ground arith
  superseded_step locked local_ip epoch (popped msg) hub h = ground arith
  superseded_step locked local_ip epoch (checked m) hub h = ground arith
  superseded_step locked local_ip epoch finished hub h = ground arith

  superseded_act :
      (a : Action Image) (w : Worker Image) (hub : MessageHub Image)
      → w.epoch < hub.send_epoch
      → hub.send_epoch + 2 < 2 ^ 64
      → let (next, after, posts) = act a w hub in
        (next.epoch ≡ w.epoch)
        × (hub.send_epoch ≤ after.send_epoch)
        × (after.send_epoch ≤ hub.send_epoch + 2)
        × (length posts + in_hand next.phase ≤ in_hand w.phase)
  unfolding act enqueue_send clear_queues clear_pending_video start signal_send_stop
      start_send_worker
  superseded_act (work locked local_ip) w hub h k =
      let (e, p) = superseded_step locked local_ip w.epoch w.phase hub h in
      (refl, omega (arith, e), omega (arith, e), p)
  superseded_act (enqueued locked msg) w hub h k = (refl, omega arith, omega arith, omega arith)
  superseded_act (cleared x y) w hub h k = (refl, omega arith, omega arith, omega arith)
  superseded_act (video_cleared locked) w hub h k = (refl, omega arith, omega arith, omega arith)
  superseded_act (queue_changed queue) w hub h k = (refl, omega arith, omega arith, omega arith)
  superseded_act (connection_set b) w hub h k = (refl, omega arith, omega arith, omega arith)
  superseded_act stopped w hub h k = (refl, omega arith, omega arith, omega arith)
  superseded_act started w hub h k = (refl, omega arith, omega arith, omega arith)

  -- A worker of an epoch before the hub's posts, whatever it and other threads do in whatever order, at
  -- most the one message that it had in hand after its last look at the epoch, so long as the epochs
  -- do not wrap around.
  pub act_all-superseded :
      (actions : List (Action Image)) (w : Worker Image) (hub : MessageHub Image)
      → w.epoch < hub.send_epoch
      → hub.send_epoch + 2 * length actions < 2 ^ 64
      → length (act_all actions w hub) ≤ in_hand w.phase
  unfolding act_all
  act_all-superseded [] w hub h k = omega arith
  act_all-superseded (a ∷ actions) w hub h k =
      let (next, after, posts) = act a w hub in
      let (same_epoch, up, near, fewer) = superseded_act a w hub h (omega arith) in
      omega (
        arith,
        fewer,
        length-append posts (act_all actions next after),
        act_all-superseded actions next after (omega (arith, same_epoch, up)) (omega (arith, near)),
      )
