-- ===== src/Server/Buffer/Contents.antt =====
-- The buffer of Buffer.antt against the queue of its unread bytes.
use cloud_meeting_client.Prelude.{
  ℕ, ◌+◌, ◌-◌, ◌*◌, ◌≤◌, ◌<◌, max, ◌≡◌, refl, sym, ap, ◌∙◌, inl, inr, [], ◌∷◌, ◌++◌, append_assoc,
  append-nil, arith, Bytes, ltb, Bool-cases, length, take, drop, replicate, length-append,
  length-take, length-drop, length-replicate, take-append, take-append_le, drop-append_le,
  take-length, drop-drop, take-drop, suc-==-zero, get_or, get_or-take,
}
use cloud_meeting_client.Server.Buffer.{
  Buffer, resize_vector, copy_to, new_buffer, read_begin, move_read_pos, readable_size,
  writable_size, normalize, grow, expand_if_need, fill, write,
}

pub record IsValid (b : Buffer) : Type 0 where
  pub read_le : b.read_pos ≤ b.write_pos
  pub write_le : b.write_pos ≤ length b.buffer

-- The unread bytes.
abbrev pub contents : Buffer → Bytes
contents b = take (b.write_pos - b.read_pos) (drop b.read_pos b.buffer)

pub new_buffer-IsValid : (n : ℕ) → IsValid (new_buffer n)
unfolding new_buffer
new_buffer-IsValid n = record { read_le = omega arith; write_le = omega arith }

pub contents-new_buffer : (n : ℕ) → contents (new_buffer n) ≡ []
unfolding new_buffer
contents-new_buffer n = refl

pub length-contents : (b : Buffer) → IsValid b → length (contents b) ≡ readable_size b
unfolding readable_size
length-contents b v = omega (
  arith,
  length-take (b.write_pos - b.read_pos) (drop b.read_pos b.buffer),
  length-drop b.read_pos b.buffer,
)

-- The unread bytes stand in what is written.
contents-written :
    (b : Buffer) → IsValid b → contents b ≡ drop b.read_pos (take b.write_pos b.buffer)
contents-written b v = take-drop b.read_pos b.write_pos b.buffer v.read_le

pub normalize-IsValid : (b : Buffer) → IsValid b → IsValid (normalize b)
unfolding normalize
normalize-IsValid b v = ground (
  arith,
  length-contents b v,
  length-append (contents b) (drop (0 + length (contents b)) b.buffer),
)

pub contents-normalize : (b : Buffer) → IsValid b → contents (normalize b) ≡ contents b
unfolding normalize readable_size
contents-normalize b v = ground (
  arith,
  length-contents b v,
  take-append (contents b) (drop (0 + length (contents b)) b.buffer) (b.write_pos - b.read_pos - 0),
)

take-resize :
    (v : Bytes) (n w : ℕ) → length v ≤ n → w ≤ length v → take w (resize_vector v n) ≡ take w v
take-resize v n w h k = rw (take-length v n h) (take-append_le v (replicate (n - length v) 0) w k)

length-resize : (v : Bytes) (n : ℕ) → length v ≤ n → length (resize_vector v n) ≡ n
length-resize v n h = omega (
  arith,
  length-append (take n v) (replicate (n - length v) 0),
  length-replicate {A = ℕ} (n - length v) 0,
  length-take n v,
)

grow-IsValid : (b : Buffer) (n : ℕ) → IsValid b → IsValid (grow b n)
unfolding grow
grow-IsValid b n v =
    omega (arith, length-resize b.buffer (max (2 * length b.buffer) (b.write_pos + n)))

contents-grow : (b : Buffer) (n : ℕ) → IsValid b → contents (grow b n) ≡ contents b
unfolding grow
contents-grow b n v =
    contents-written (grow b n) (grow-IsValid b n v)
    ∙ ap (drop b.read_pos) (
        take-resize b.buffer (max (2 * length b.buffer) (b.write_pos + n)) b.write_pos (omega arith)
          v.write_le)
    ∙ sym (contents-written b v)

writable-grow : (b : Buffer) (n : ℕ) → IsValid b → n ≤ writable_size (grow b n)
unfolding grow writable_size
writable-grow b n v =
    omega (arith, length-resize b.buffer (max (2 * length b.buffer) (b.write_pos + n)))

-- Room was made for `n` bytes, and nothing unread was lost.
record Expanded (b : Buffer) (n : ℕ) (c : Buffer) : Type 0 where
  valid : IsValid c
  same : contents c ≡ contents b
  room : n ≤ writable_size c

expand_if_need-Expanded : (b : Buffer) (n : ℕ) → IsValid b → Expanded b n (expand_if_need b n)
unfolding expand_if_need
expand_if_need-Expanded b n v = elim (Bool-cases (ltb (writable_size b) n)) [
  | inl small ↦ rw small (elim (Bool-cases (ltb (writable_size (normalize b)) n)) [
    | inl short ↦
        let w = normalize-IsValid b v in
        rw short (record {
          valid = grow-IsValid (normalize b) n w;
          same = contents-grow (normalize b) n w ∙ contents-normalize b v;
          room = writable-grow (normalize b) n w;
        })
    | inr wide ↦ rw wide (record {
      valid = normalize-IsValid b v;
      same = contents-normalize b v;
      room = ground arith;
    })
  ])
  | inr large ↦ rw large (record { valid = v; same = refl; room = ground arith })
]

fill-IsValid :
    (b : Buffer) (d : Bytes) → IsValid b → length d ≤ writable_size b → IsValid (fill b d)
unfolding fill writable_size
fill-IsValid b d v h = omega (
  arith,
  length-append (take b.write_pos b.buffer) (d ++ drop (b.write_pos + length d) b.buffer),
  length-append d (drop (b.write_pos + length d) b.buffer),
  length-take b.write_pos b.buffer,
  length-drop (b.write_pos + length d) b.buffer,
)

take-copy_to :
    (v : Bytes) (i : ℕ) (d : Bytes)
    → i ≤ length v
    → take (i + length d) (copy_to v i d) ≡ take i v ++ d
take-copy_to v i d h = rw (← append_assoc (take i v) d (drop (i + length d) v)) (
    take-append (take i v ++ d) (drop (i + length d) v) (i + length d)
      (omega (arith, length-append (take i v) d, length-take i v)))

contents-fill :
    (b : Buffer) (d : Bytes)
    → IsValid b
    → length d ≤ writable_size b
    → contents (fill b d) ≡ contents b ++ d
unfolding fill
contents-fill b d v h =
    contents-written (fill b d) (fill-IsValid b d v h)
    ∙ ap (drop b.read_pos) (take-copy_to b.buffer b.write_pos d v.write_le)
    ∙ drop-append_le (take b.write_pos b.buffer) d b.read_pos
        (omega (arith, length-take b.write_pos b.buffer))
    ∙ ap (λ xs. xs ++ d) (sym (contents-written b v))

pub write-IsValid : (b : Buffer) (d : Bytes) → IsValid b → IsValid (write b d)
unfolding write
write-IsValid b [] v = v
write-IsValid b (x ∷ d) v =
    let e = expand_if_need-Expanded b (length (x ∷ d)) v in
    rw suc-==-zero (fill-IsValid (expand_if_need b (length (x ∷ d))) (x ∷ d) e.valid e.room)

-- `write` on a well-formed buffer appends its block to the unread bytes, whatever it moves or
-- grows, and leaves the buffer well formed.
pub contents-write :
    (b : Buffer) (d : Bytes)
    → IsValid b
    → (contents (write b d) ≡ contents b ++ d) × IsValid (write b d)
unfolding write
contents-write b [] v = (sym (append-nil (contents b)), v)
contents-write b (x ∷ d) v =
    let e = expand_if_need-Expanded b (length (x ∷ d)) v in
    (
      rw suc-==-zero (
          contents-fill (expand_if_need b (length (x ∷ d))) (x ∷ d) e.valid e.room
          ∙ ap (λ xs. xs ++ x ∷ d) e.same),
      write-IsValid b (x ∷ d) v,
    )

-- `move_read_pos` by no more than what is readable, on a well-formed buffer, drops that many of
-- the unread bytes and leaves the buffer well formed.
pub contents-move_read_pos :
    (b : Buffer) (n : ℕ)
    → IsValid b
    → n ≤ readable_size b
    → (contents (move_read_pos b n) ≡ drop n (contents b)) × IsValid (move_read_pos b n)
unfolding move_read_pos readable_size
contents-move_read_pos b n v h = (
  take-drop (b.read_pos + n) b.write_pos b.buffer (omega arith)
      ∙ sym (drop-drop n b.read_pos (take b.write_pos b.buffer))
      ∙ ap (drop n) (sym (contents-written b v)),
  record { read_le = omega arith; write_le = v.write_le },
)

-- A byte read at an offset below `readable_size` is that of the unread bytes.
pub get_or-read_begin :
    (b : Buffer) (i : ℕ) → i < readable_size b → get_or (read_begin b) i 0 ≡ get_or (contents b) i 0
unfolding readable_size
get_or-read_begin b i h = sym (get_or-take (read_begin b) (b.write_pos - b.read_pos) i 0 h)
