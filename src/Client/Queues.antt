-- ===== src/Client/Queues.antt =====
-- client/include/network/messageNet/message.h and client/src/network/messageNet/message.cpp: the
-- queues. A call that takes a lock is told whether it got it in time, and a call that waits sees the
-- queue as it is when the wait ends. A null pointer is `none`.
pub mod Bounds
pub mod Order
use cloud_meeting_client.Client.Message.{
  Message, MessagePriority, control, audio, text, video, send_priority,
}
use cloud_meeting_client.Prelude.{
  ℕ, Bool, Option, ◌∷◌, List, none, [], some, ◌==◌, if◌then◌else◌, ltb, ◌++◌, ◌&&◌, length, leb,
}

abbrev pub queue_maxsize : ℕ
queue_maxsize = 1500

abbrev pub video_queue_maxsize : ℕ
video_queue_maxsize = 3

abbrev pub audio_queue_maxsize : ℕ
audio_queue_maxsize = 64

-- The buckets of a `PriorityMessageQueue`, oldest message first.
pub record PriorityQueue (Image : Type 0) : Type 0 where
  pub control_bucket : List (Message Image)
  pub audio_bucket : List (Message Image)
  pub text_bucket : List (Message Image)
  pub video_bucket : List (Message Image)

module _ {Image : Type 0} where
  unfoldable pub empty_queue : PriorityQueue Image
  empty_queue = record {
    control_bucket = [];
    audio_bucket = [];
    text_bucket = [];
    video_bucket = [];
  }

  -- `while (bucket.size() >= max_size) bucket.pop_front();`
  unfoldable pub trim : List (Message Image) → ℕ → List (Message Image)
  trim [] max_size = []
  trim (m ∷ bucket) max_size =
      if leb max_size (length (m ∷ bucket)) then trim bucket max_size else m ∷ bucket

  unfoldable pub push_bounded : List (Message Image) → Message Image → ℕ → List (Message Image)
  push_bounded bucket msg max_size =
      if max_size == 0 then bucket else trim bucket max_size ++ msg ∷ []

  -- `bucket_for` and the switch of `push`.
  unfoldable pub push_to :
      MessagePriority → Message Image → PriorityQueue Image → PriorityQueue Image
  push_to video msg q = record q {
    video_bucket = push_bounded q.video_bucket msg video_queue_maxsize;
  }
  push_to audio msg q = record q {
    audio_bucket = push_bounded q.audio_bucket msg audio_queue_maxsize;
  }
  push_to text msg q = record q { text_bucket = push_bounded q.text_bucket msg queue_maxsize }
  push_to control msg q = record q {
    control_bucket = push_bounded q.control_bucket msg queue_maxsize;
  }

  unfoldable pub push : Bool → Option (Message Image) → PriorityQueue Image → PriorityQueue Image
  push locked none q = q
  push locked (some msg) q = if locked then push_to (send_priority msg) msg q else q

  -- The loop over the buckets.
  unfoldable pub pop_buckets :
      List (Message Image)
      → List (Message Image)
      → List (Message Image)
      → List (Message Image)
      → Option (Message Image) × PriorityQueue Image
  pop_buckets (m ∷ c) a t v =
      (some m, record { control_bucket = c; audio_bucket = a; text_bucket = t; video_bucket = v })
  pop_buckets [] (m ∷ a) t v =
      (some m, record { control_bucket = []; audio_bucket = a; text_bucket = t; video_bucket = v })
  pop_buckets [] [] (m ∷ t) v =
      (some m, record { control_bucket = []; audio_bucket = []; text_bucket = t; video_bucket = v })
  pop_buckets [] [] [] (m ∷ v) = (
    some m,
    record { control_bucket = []; audio_bucket = []; text_bucket = []; video_bucket = v },
  )
  pop_buckets [] [] [] [] =
      (none, record { control_bucket = []; audio_bucket = []; text_bucket = []; video_bucket = [] })

  unfoldable pub pop : PriorityQueue Image → Option (Message Image) × PriorityQueue Image
  pop q = pop_buckets q.control_bucket q.audio_bucket q.text_bucket q.video_bucket

  -- Whether one of eight attempts got the lock.
  unfoldable pub clear : Bool → PriorityQueue Image → PriorityQueue Image
  unfolding empty_queue
  clear locked q = if locked then empty_queue else q

  unfoldable pub clear_video : Bool → PriorityQueue Image → PriorityQueue Image
  clear_video locked q = if locked then record q { video_bucket = [] } else q

-- `MessageQueue`, oldest message first.
abbrev pub MessageQueue : Type 0 → Type 0
MessageQueue Image = List (Message Image)

module _ {Image : Type 0} where
  -- A push waits for room, and gives up on a queue that stays full.
  unfoldable pub enqueue : Bool → Option (Message Image) → MessageQueue Image → MessageQueue Image
  enqueue locked none q = q
  enqueue locked (some msg) q = if locked && ltb (length q) queue_maxsize then q ++ msg ∷ [] else q

  unfoldable pub dequeue : MessageQueue Image → Option (Message Image) × MessageQueue Image
  dequeue [] = (none, [])
  dequeue (m ∷ q) = (some m, q)

  unfoldable pub clear_all : Bool → MessageQueue Image → MessageQueue Image
  clear_all locked q = if locked then [] else q
