-- ===== src/Server/Connection.antt =====
-- server/include/network/connection.h and server/src/network/connection.cpp. The socket is not
-- modelled: an asynchronous operation's completion is a call with what it delivers. The handlers
-- belong to the service (Service.antt); here is what a connection does to its own state.
pub mod Delivery
use cloud_meeting_client.Server.Buffer.{
  Buffer, new_buffer, init_buffer_size, write, move_read_pos, readable_size,
}
use cloud_meeting_client.Prelude.{
  ℕ, Bool, false, List, if◌then◌else◌, Bytes, true, [], not, ◌∷◌, ◌||◌, ◌&&◌, length, ◌==◌, ◌++◌,
}

pub record Connection : Type 0 where
  pub id : ℕ
  -- The peer's IPv4 address; 0 when the socket does not know it.
  pub peer_ip : ℕ
  pub closed : Bool
  pub socket_open : Bool
  pub read_buffer : Buffer
  pub write_queue : List Buffer
  pub write_in_progress : Bool
  pub has_close_handler : Bool

-- The connection of an accepted socket.
unfoldable pub new_connection : ℕ → ℕ → Connection
new_connection id ip = record {
  id = id;
  peer_ip = ip;
  closed = false;
  socket_open = true;
  read_buffer = new_buffer init_buffer_size;
  write_queue = [];
  write_in_progress = false;
  has_close_handler = false;
}

abbrev pub is_open : Connection → Bool
is_open c = not c.closed && c.socket_open

abbrev pub is_empty {ℓ} : {A : Type ℓ} → List A → Bool
is_empty [] = true
is_empty (x ∷ xs) = false

-- Starts an asynchronous write of the front buffer, unless one runs.
unfoldable pub do_write : Connection → Connection
do_write c =
    if c.write_in_progress || is_empty c.write_queue || c.closed
    then c
    else record c { write_in_progress = true }

unfoldable pub send : Connection → Bytes → Connection
send c d =
    if c.closed || length d == 0
    then c
    else do_write (record c { write_queue = c.write_queue ++ write (new_buffer (length d)) d ∷ [] })

-- The front buffer after `length` of its bytes were written: popped when none is left.
unfoldable pub advance : List Buffer → ℕ → List Buffer
advance [] length = []
advance (b ∷ queue) length =
    let front = move_read_pos b length in if readable_size front == 0 then queue else front ∷ queue

-- The completion of a write with no error.
unfoldable pub on_written : Connection → ℕ → Connection
on_written c length =
    let rest = advance c.write_queue length in
    let d = record c { write_in_progress = false; write_queue = rest } in
    if is_empty rest then d else do_write d

-- The completion of a read with no error, before the read handler is called.
unfoldable pub on_received : Connection → Bytes → Connection
on_received c d = record c { read_buffer = write c.read_buffer d }

-- `close` up to `notify_close`.
unfoldable pub mark_closed : Connection → Connection
mark_closed c = record c { closed = true; socket_open = false }
