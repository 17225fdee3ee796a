-- ===== src/Client/Hub/Worker.antt =====
-- client/src/network/messageNet/messagehub.cpp: the loop of the thread that sends, in the steps between
-- which other threads run.
use cloud_meeting_client.Client.Message.{
  create_meeting, join_meeting, close_camera, send_text, MessageKind, Message, kind,
}
use cloud_meeting_client.Prelude.{
  if◌then◌else◌, ◌==◌, ℕ, Bytes, not, ◌&&◌, false, some, Bool, true, ◌∷◌, none, [], List, Option,
}
use cloud_meeting_client.Client.Codec.{Qt, encode_wire_frame}
use cloud_meeting_client.Client.Hub.{MessageHub}
use cloud_meeting_client.Client.Queues.{pop, push}
use cloud_meeting_client.Server.Connection.{is_empty}

-- At the test of the loop, after it, after the pop, after the second look at the epoch, or finished.
pub data Phase (Image : Type 0) : Type 0 where
  testing popping : Phase Image
  popped : Option (Message Image) → Phase Image
  checked : Message Image → Phase Image
  finished : Phase Image

pub record Worker (Image : Type 0) : Type 0 where
  pub epoch : ℕ
  pub phase : Phase Image

-- What a step gives to others: a frame for `sendWireData`, and whether `text_send_finished` follows.
pub record Post : Type 0 where
  pub frame : Bytes
  pub text_sent : Bool

-- The kinds that a superseded worker gives back.
unfoldable pub is_returned : MessageKind → Bool
is_returned create_meeting = true
is_returned join_meeting = true
is_returned close_camera = true
is_returned send_text = true
is_returned _ = false

abbrev pub is_text : MessageKind → Bool
is_text send_text = true
is_text _ = false

module _ (qt : Qt) where
  open qt use {Image}

  abbrev pub Out : Type 0
  Out = Phase Image × MessageHub Image × List Post

  unfoldable pub look_at_epoch : Bool → ℕ → Option (Message Image) → MessageHub Image → Out
  look_at_epoch locked epoch msg hub =
      if not (hub.send_epoch == epoch)
      then (
        finished,
        (elim msg [
          | none ↦ hub
          | some m ↦
              if is_returned (kind m)
              then record hub { send_queue = push locked (some m) hub.send_queue }
              else hub
        ]),
        [],
      )
      else elim msg [
        | none ↦ (testing, hub, [])
        | some m ↦ if not hub.has_connection then (testing, hub, []) else (checked m, hub, [])
      ]

  -- `local_ip` is the address that the connection returns at the time.
  unfoldable pub post_frame : ℕ → Message Image → MessageHub Image → Out
  post_frame local_ip m hub =
      let frame = encode_wire_frame qt m local_ip in
      if is_empty frame
      then (testing, hub, [])
      else (testing, hub, record { frame = frame; text_sent = is_text (kind m) } ∷ [])

  unfoldable pub next_phase : Bool → ℕ → ℕ → Phase Image → MessageHub Image → Out
  next_phase locked local_ip epoch testing hub =
      (if hub.send_running && (hub.send_epoch == epoch) then popping else finished, hub, [])
  next_phase locked local_ip epoch popping hub =
      let (msg, queue) = pop hub.send_queue in (popped msg, record hub { send_queue = queue }, [])
  next_phase locked local_ip epoch (popped msg) hub = look_at_epoch locked epoch msg hub
  next_phase locked local_ip epoch (checked m) hub = post_frame local_ip m hub
  next_phase locked local_ip epoch finished hub = (finished, hub, [])
