-- ===== src/Server/Buffer.antt =====
-- server/include/network/buffer.h and server/src/network/buffer.cpp: a byte vector with a read and
-- a write position. The sizes are unbounded here, as a vector's size stays below 2 ^ 63. An
-- `assert` is not modelled; `IsValid` of Buffer/Contents shows where it holds.
pub mod Contents
use cloud_meeting_client.Prelude.{
  ℕ, ◌+◌, ◌-◌, ◌*◌, max, Bool, true, false, List, [], ◌∷◌, ◌++◌, Bytes, ltb, ◌==◌, if◌then◌else◌,
  length, take, drop, replicate,
}

pub record Buffer : Type 0 where
  pub buffer : Bytes
  pub read_pos : ℕ
  pub write_pos : ℕ

-- `std::vector::resize`: cuts, or appends zeros.
abbrev pub resize_vector : Bytes → ℕ → Bytes
resize_vector v n = take n v ++ replicate (n - length v) 0

-- `memcpy` and `memmove` of the block `d` to the position `i` of a vector.
abbrev pub copy_to : Bytes → ℕ → Bytes → Bytes
copy_to v i d = take i v ++ (d ++ drop (i + length d) v)

abbrev pub init_buffer_size : ℕ
init_buffer_size = 4096

unfoldable pub new_buffer : ℕ → Buffer
new_buffer size = record { buffer = replicate size 0; read_pos = 0; write_pos = 0 }

unfoldable pub reset : Buffer → Buffer
reset b = record b { read_pos = 0; write_pos = 0 }

unfoldable pub resize : Buffer → ℕ → Buffer
resize b size = record b { buffer = resize_vector b.buffer size }

-- What stands from the read position on, written or not.
abbrev pub read_begin : Buffer → Bytes
read_begin b = drop b.read_pos b.buffer

unfoldable pub move_read_pos : Buffer → ℕ → Buffer
move_read_pos b size = record b { read_pos = b.read_pos + size }

unfoldable pub move_write_pos : Buffer → ℕ → Buffer
move_write_pos b size = record b { write_pos = b.write_pos + size }

unfoldable pub readable_size : Buffer → ℕ
readable_size b = b.write_pos - b.read_pos

unfoldable pub writable_size : Buffer → ℕ
writable_size b = length b.buffer - b.write_pos

unfoldable pub normalize : Buffer → Buffer
unfolding readable_size
normalize b = if b.read_pos == 0 then b else record {
  buffer =
      (if b.read_pos == b.write_pos
        then b.buffer
        else copy_to b.buffer 0 (take (readable_size b) (read_begin b)));
  read_pos = 0;
  write_pos = b.write_pos - b.read_pos;
}

-- The resize of `expand_if_need`.
unfoldable pub grow : Buffer → ℕ → Buffer
grow b size = record b {
  buffer = resize_vector b.buffer (max (2 * length b.buffer) (b.write_pos + size));
}

unfoldable pub expand_if_need : Buffer → ℕ → Buffer
expand_if_need b size =
    if ltb (writable_size b) size
    then (let c = normalize b in if ltb (writable_size c) size then grow c size else c)
    else b

-- The copy and the move of the write position that end `write`.
unfoldable pub fill : Buffer → Bytes → Buffer
unfolding move_write_pos
fill b d = move_write_pos (record b { buffer = copy_to b.buffer b.write_pos d }) (length d)

unfoldable pub write : Buffer → Bytes → Buffer
write b d = if length d == 0 then b else fill (expand_if_need b (length d)) d

-- `move()`: the vector that is handed out, and what stays behind. A moved-from vector is empty.
unfoldable pub move : Buffer → Bytes × Buffer
move b = (b.buffer, record { buffer = []; read_pos = 0; write_pos = 0 })
