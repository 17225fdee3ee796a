-- ===== src/Server/Connection/Delivery.antt =====
-- server/src/network/connection.cpp: the bytes that are sent, queued and delivered.
use cloud_meeting_client.Server.Buffer.{Buffer, write, new_buffer, move_read_pos, readable_size}
use cloud_meeting_client.Server.Buffer.Contents.{
  IsValid, contents, contents-write, new_buffer-IsValid, contents-new_buffer,
  contents-move_read_pos, write-IsValid, length-contents,
}
use cloud_meeting_client.Server.Connection.{
  Connection, do_write, send, advance, on_written, is_empty, new_connection,
}
use cloud_meeting_client.Prelude.{
  List, Bytes, ◌≢◌, ◌≡◌, ◌++◌, ℕ, ◌∷◌, [], false, All, ap, ◌≤◌, refl, not, ◌∙◌, length, sym, take,
  append_assoc, arith, subst, append-nil, Bool-cases, inl, All-append, take-append-drop, inr, ◌==◌,
  drop, true,
}

-- What is queued and not yet written.
abbrev pub pending : List Buffer → Bytes
pending [] = []
pending (b ∷ bs) = contents b ++ pending bs

-- A queued buffer is well formed and has something to write.
pub record IsQueued (b : Buffer) : Type 0 where
  pub valid : IsValid b
  pub some_left : contents b ≢ []

-- An open connection with something to write is writing.
pub record IsLive (c : Connection) : Type 0 where
  pub not_closed : c.closed ≡ false
  pub queued : All IsQueued c.write_queue
  pub writing : c.write_in_progress ≡ not (is_empty c.write_queue)

pub pending-append : (xs ys : List Buffer) → pending (xs ++ ys) ≡ pending xs ++ pending ys
pending-append [] ys = refl
pending-append (b ∷ xs) ys =
    ap (◌++◌ (contents b)) (pending-append xs ys)
    ∙ sym (append_assoc (contents b) (pending xs) (pending ys))

is_empty-append : (xs : List Buffer) (b : Buffer) → is_empty (xs ++ b ∷ []) ≡ false
is_empty-append [] b = refl
is_empty-append (x ∷ xs) b = refl

packed : (d : Bytes) → contents (write (new_buffer (length d)) d) ≡ d
packed d =
    (contents-write (new_buffer (length d)) d (new_buffer-IsValid (length d))).0
    ∙ ap (λ xs. xs ++ d) (contents-new_buffer (length d))

-- A block that is sent is appended to what is to be written.
pub pending-send :
    (c : Connection) (d : Bytes)
    → IsLive c
    → (pending (send c d).write_queue ≡ pending c.write_queue ++ d) × IsLive (send c d)
unfolding send do_write
pending-send c [] l = ground (arith, append-nil (pending c.write_queue))
pending-send c (x ∷ d) l =
    let b = write (new_buffer (length (x ∷ d))) (x ∷ d) in
    let e = packed (x ∷ d) in
    let valid =
      write-IsValid (new_buffer (length (x ∷ d))) (x ∷ d) (new_buffer-IsValid (length (x ∷ d))) in
    let more = pending-append c.write_queue (b ∷ []) in
    let queued : All IsQueued (c.write_queue ++ b ∷ []) =
      All-append IsQueued c.write_queue (b ∷ []) l.queued
        (record { valid = valid; some_left = ground (arith, e) }, tt) in
    let held = is_empty-append c.write_queue b in
    elim (Bool-cases (is_empty c.write_queue)) [
      | inl idle ↦ (
        ground (arith, more, e, append-nil (x ∷ d)),
        record {
          not_closed = ground arith;
          queued = ground (arith, queued);
          writing = ground (arith, held);
        },
      )
      | inr busy ↦ (
        ground (arith, more, e, append-nil (x ∷ d)),
        record {
          not_closed = ground arith;
          queued = ground (arith, queued);
          writing = ground (arith, held);
        },
      )
    ]

advance_lem :
    (b : Buffer) (queue : List Buffer) (n : ℕ)
    → IsValid b
    → All IsQueued queue
    → n ≤ length (contents b)
    → (take n (contents b) ++ pending (advance (b ∷ queue) n) ≡ contents b ++ pending queue)
      × All IsQueued (advance (b ∷ queue) n)
unfolding advance
advance_lem b queue n v q h =
    let front = move_read_pos b n in
    let moved = contents-move_read_pos b n v (omega (arith, length-contents b v)) in
    let whole = take-append-drop n (contents b) in
    let left = length-contents front moved.1 in
    elim (Bool-cases (readable_size front == 0)) [
      | inl done ↦
          let none_left : drop n (contents b) ≡ [] = ground (arith, moved.0, left) in
          (ground (arith, whole, none_left, append-nil (take n (contents b))), ground (arith, q))
      | inr more ↦ (
        ground (
          arith,
          whole,
          moved.0,
          append_assoc (take n (contents b)) (drop n (contents b)) (pending queue),
        ),
        ground (arith, q, moved.1, left),
      )
    ]

-- A completed write takes its bytes off the front of what is to be written.
pub pending-on_written :
    (c : Connection) (b : Buffer) (queue : List Buffer) (n : ℕ)
    → IsLive c
    → c.write_queue ≡ b ∷ queue
    → n ≤ length (contents b)
    → (take n (contents b) ++ pending (on_written c n).write_queue ≡ pending c.write_queue)
      × IsLive (on_written c n)
unfolding on_written do_write
pending-on_written c b queue n l e h =
    let q : All IsQueued (b ∷ queue) = subst (All IsQueued) e l.queued in
    let done = advance_lem b queue n q.0.valid q.1 h in
    rw e (elim (Bool-cases (is_empty (advance (b ∷ queue) n))) [
      | inl idle ↦
          rw idle (done.0, record { not_closed = l.not_closed; queued = done.1; writing = rw idle })
      | inr busy ↦
          rw (busy, l.not_closed)
            (done.0, record { not_closed = refl; queued = done.1; writing = rw busy })
    ])

-- A connection with what was ever given to `send`, and what the socket ever took.
pub record Traced : Type 0 where
  pub connection : Connection
  pub sent : Bytes
  pub delivered : Bytes

abbrev pub front : List Buffer → Bytes
front [] = []
front (b ∷ queue) = contents b

-- The program sends a block, or the socket reports that it took some of the block it was given.
pub data Step (s : Traced) : Traced → Type 0 where
  sends : (d : Bytes) → Step s (record s { connection = send s.connection d; sent = s.sent ++ d })
  writes :
      (n : ℕ)
      → s.connection.write_in_progress ≡ true
      → n ≤ length (front s.connection.write_queue)
      → Step s (record s {
        connection = on_written s.connection n;
        delivered = s.delivered ++ take n (front s.connection.write_queue);
      })

pub data Reach (s : Traced) : Traced → Type 0 where
  here : Reach s s
  next : {t u : Traced} → Reach s t → Step t u → Reach s u

-- Every byte sent is delivered or queued, in the order of the sends.
pub record IsTrue (s : Traced) : Type 0 where
  pub live : IsLive s.connection
  pub all_there : s.delivered ++ pending s.connection.write_queue ≡ s.sent

writes-IsTrue :
    (s : Traced) (queue : List Buffer) (n : ℕ)
    → s.connection.write_queue ≡ queue
    → s.connection.write_in_progress ≡ true
    → n ≤ length (front queue)
    → IsTrue s
    → IsTrue (record s {
      connection = on_written s.connection n;
      delivered = s.delivered ++ take n (front queue);
    })
writes-IsTrue s [] n e w h v = ground (arith, v.live.writing, e, ap is_empty e)
writes-IsTrue s (b ∷ queue) n e w h v =
    let done = pending-on_written s.connection b queue n v.live e h in
    record {
      live = done.1;
      all_there =
          append_assoc s.delivered (take n (contents b))
            (pending (on_written s.connection n).write_queue)
          ∙ ap (◌++◌ s.delivered) done.0
          ∙ v.all_there;
    }

pub Step-IsTrue : {s t : Traced} → Step s t → IsTrue s → IsTrue t
Step-IsTrue {s} (sends d) v =
    let done = pending-send s.connection d v.live in
    record {
      live = done.1;
      all_there =
          ap (◌++◌ s.delivered) done.0
          ∙ sym (append_assoc s.delivered (pending s.connection.write_queue) d)
          ∙ ap (λ xs. xs ++ d) v.all_there;
    }
Step-IsTrue {s} (writes n w h) v = writes-IsTrue s s.connection.write_queue n refl w h v

-- In every history of sends and completed writes of a new connection, what the socket took
-- followed by what is queued is what was sent, in order; no queued buffer is empty, and a write
-- is running exactly while something is queued.
pub Reach-IsTrue :
    (id ip : ℕ) {s : Traced}
    → Reach (record { connection = new_connection id ip; sent = []; delivered = [] }) s
    → IsTrue s
unfolding new_connection
Reach-IsTrue id ip here = record {
  live = record { not_closed = refl; queued = tt; writing = refl };
  all_there = refl;
}
Reach-IsTrue id ip (next r step) = Step-IsTrue step (Reach-IsTrue id ip r)
