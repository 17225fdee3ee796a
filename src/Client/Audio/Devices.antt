-- ===== src/Client/Audio/Devices.antt =====
-- client/src/message/audio/audiocommon.cpp, AudioInput.cpp and AudioOutput.cpp: the choice of a format,
-- the blocks of sound that are collected for sending, and those that are received and played. What a
-- device reads and how much it writes are arguments.
use cloud_meeting_client.Client.Audio.{
  SampleFormat, unknown, uint8, int16, int32, float_format, convert_channels,
}
use cloud_meeting_client.Server.Connection.{is_empty}
use cloud_meeting_client.Prelude.{
  leb, ◌∷◌, pos, leb_ℤ, List, ◌==◌, ◌++◌, ◌||◌, some, not, drop, Bool, ◌&&◌, ℕ, false, ◌+◌, ◌/◌,
  take, ◌*◌, none, ltb, Bytes, ℤ, true, if◌then◌else◌, pos_part, length, Option, max, [],
}

-- A format: of the wire, or of a device (`QAudioFormat`).
pub record Spec : Type 0 where
  pub sample_rate : ℕ
  pub channel_count : ℕ
  pub sample_format : SampleFormat

abbrev pub same_format : SampleFormat → SampleFormat → Bool
same_format unknown unknown = true
same_format uint8 uint8 = true
same_format int16 int16 = true
same_format int32 int32 = true
same_format float_format float_format = true
same_format _ _ = false

unfoldable pub session_wire_pcm_spec : Spec
session_wire_pcm_spec = record {
  sample_rate = 48000;
  channel_count = 2;
  sample_format = float_format;
}

abbrev pub int16_spec : ℕ → ℕ → Spec
int16_spec rate ch = record { sample_rate = rate; channel_count = ch; sample_format = int16 }

abbrev pub candidates : List Spec
candidates =
    int16_spec 8000 1
    ∷ int16_spec 16000 1
    ∷ int16_spec 48000 1
    ∷ int16_spec 48000 2
    ∷ int16_spec 44100 1
    ∷ int16_spec 44100 2
    ∷ []

-- The loop over the candidates.
unfoldable pub first_supported : (Spec → Bool) → (Spec → Bool) → List Spec → Option Spec
first_supported in_supports out_supports [] = none
first_supported in_supports out_supports (f ∷ fs) =
    if in_supports f && out_supports f then some f else first_supported in_supports out_supports fs

-- `isFormatSupported` and `preferredFormat` of the two default devices are arguments.
unfoldable pub negotiated_pcm_format : (Spec → Bool) → (Spec → Bool) → Spec → Spec → Spec
negotiated_pcm_format in_supports out_supports in_pref out_pref =
    elim (first_supported in_supports out_supports candidates) [
      | some f ↦ f
      | none ↦
          if out_supports in_pref
          then in_pref
          else if in_supports out_pref
          then out_pref
          else in_pref
    ]

-- The setters of the specification; a value that is not positive is ignored.
unfoldable pub set_sample_rate : ℤ → Spec → Spec
set_sample_rate hz s = if leb_ℤ hz (pos 0) then s else record s { sample_rate = pos_part hz }

unfoldable pub set_channel_count : ℤ → Spec → Spec
set_channel_count channels s =
    if leb_ℤ channels (pos 0) then s else record s { channel_count = pos_part channels }

unfoldable pub set_sample_format : SampleFormat → Spec → Spec
set_sample_format format s = record s { sample_format = format }

-- `num` and `totallen` are static in `onreadyRead`; `collected` are the first `totallen` bytes of the
-- buffer.
pub record AudioInput : Type 0 where
  pub has_device : Bool
  pub has_hub : Bool
  pub num : ℕ
  pub collected : Bytes

-- All but the last byte; `none` of none, where `totallen` would be negative.
unfoldable pub without_last : Bytes → Option Bytes
without_last [] = none
without_last (x ∷ []) = some []
without_last (x ∷ (y ∷ ys)) = elim (without_last (y ∷ ys)) [ none ↦ none | some zs ↦ some (x ∷ zs) ]

-- The buffer after a read. `none` is an error, for which `read` returns -1.
unfoldable pub after_read : Bytes → Option Bytes → Option Bytes
after_read collected (some block) = some (collected ++ block)
after_read collected none = without_last collected

module _ (bytes_per_sample : SampleFormat → ℕ) (float_mean : Bytes → Bytes → Bytes) where
  -- The block that is sent for what was collected, or none where the channels cannot be converted.
  unfoldable pub block_to_send : Spec → Spec → Bytes → List Bytes
  block_to_send af wire rr =
      let bps = bytes_per_sample af.sample_format in
      if ltb 0 bps && not (af.channel_count == wire.channel_count)
      then (let normalized =
            convert_channels bytes_per_sample float_mean rr af.channel_count wire.channel_count bps
              af.sample_format in
          if not (is_empty normalized) then normalized ∷ [] else [])
      else rr ∷ []

  -- The input, and the blocks that are given to the hub. The result is `none` where the buffer is left.
  unfoldable pub on_ready_read :
      Spec → Spec → Option Bytes → AudioInput → Option (AudioInput × List Bytes)
  on_ready_read af wire read a =
      if not a.has_device || not a.has_hub
      then some (a, [])
      else elim (after_read a.collected read) [
        | none ↦ none
        | some rr ↦
            if ltb a.num 2
            then some (record a { num = a.num + 1; collected = rr }, [])
            else some (record a { num = 0; collected = [] }, block_to_send af wire rr)
      ]

  -- A device's calls of `onreadyRead`, one after the other.
  unfoldable pub collect :
      Spec → Spec → List (Option Bytes) → AudioInput → Option (AudioInput × List Bytes)
  collect af wire [] a = some (a, [])
  collect af wire (r ∷ rs) a = elim (on_ready_read af wire r a) [
    | none ↦ none
    | some (b, sent) ↦ elim (collect af wire rs b) [
      | none ↦ none
      | some (c, more) ↦ some (c, sent ++ more)
    ]
  ]

  -- The bytes of 125 ms, at least a frame.
  unfoldable pub frame125ms : Spec → ℕ
  frame125ms format =
      let bpf = bytes_per_sample format.sample_format * format.channel_count in
      max bpf (format.sample_rate * bpf * 125 / 1000)

  -- What is played of a received block: `none` where it is dropped.
  unfoldable pub for_sink : Spec → Spec → Bytes → Option Bytes
  for_sink wire format pcm =
      let same_layout =
        same_format wire.sample_format format.sample_format
        && bytes_per_sample wire.sample_format == bytes_per_sample format.sample_format in
      if same_layout && not (wire.channel_count == format.channel_count)
      then (let converted =
            convert_channels bytes_per_sample float_mean pcm wire.channel_count format.channel_count
              (bytes_per_sample format.sample_format) wire.sample_format in
          if not (is_empty converted) then some converted else none)
      else some pcm

  -- A round of `run` with a received block: what stays in the buffer, and what the device took. The
  -- device takes `written` bytes where it is called; `none` is an error, and ends the thread.
  unfoldable pub play_block : Spec → Spec → Bool → Bytes → Option ℕ → Bytes → Option (Bytes × Bytes)
  play_block wire format has_device pcm written buffer =
      if has_device
      then (elim (for_sink wire format pcm) [
        | none ↦ some (buffer, [])
        | some sound ↦
            let full = buffer ++ sound in
            if leb (frame125ms format) (length full)
            then (elim written [
              | none ↦ none
              | some n ↦ some (drop n full, take n (take (frame125ms format) full))
            ])
            else some (full, [])
      ])
      else some ([], [])

  -- Rounds with a device: the blocks, each with what the device would take.
  unfoldable pub play : Spec → Spec → List (Bytes × Option ℕ) → Bytes → Option (Bytes × Bytes)
  play wire format [] buffer = some (buffer, [])
  play wire format ((pcm, written) ∷ rest) buffer =
      elim (play_block wire format true pcm written buffer) [
        | none ↦ none
        | some (kept, taken) ↦ elim (play wire format rest kept) [
          | none ↦ none
          | some (end, more) ↦ some (end, taken ++ more)
        ]
      ]
