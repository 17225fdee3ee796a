-- ===== src/Client/Audio/Playing.antt =====
-- client/src/message/audio/AudioInput.cpp and AudioOutput.cpp: the blocks of sound that are sent and
-- those that are played.
use cloud_meeting_client.Client.Audio.{SampleFormat, convert_channels}
use cloud_meeting_client.Client.Audio.Devices.{
  Spec, frame125ms, for_sink, play_block, play, same_format,
}
use cloud_meeting_client.Prelude.{
  append-nil, length, none, ◌∷◌, sym, refl, drop, true, Bytes, some, inl, [], take-take_le, All,
  take-append-drop, ◌≡◌, Bool-cases, inr, ◌++◌, Option, ◌≤◌, ℕ, List, leb, take, if◌then◌else◌,
  append_assoc, ◌&&◌, Bool, ◌==◌, ◌||◌, ap, ◌∙◌, not, arith,
}
use cloud_meeting_client.Server.Connection.{is_empty}

module _ (bytes_per_sample : SampleFormat → ℕ) (float_mean : Bytes → Bytes → Bytes)
    (wire format : Spec) where
  -- What the sink is given of a block, nothing where it is dropped.
  abbrev heard : Bytes → Bytes
  heard pcm = elim (for_sink bytes_per_sample float_mean wire format pcm) [ none ↦ [] | some s ↦ s ]

  -- Whether the samples on the wire are of the type and the size that the device plays.
  abbrev pub plays_samples : Bool
  plays_samples =
      same_format wire.sample_format format.sample_format
      && bytes_per_sample wire.sample_format == bytes_per_sample format.sample_format

  -- The sound of a block: as it is, but with the channels of the device in place of those of the wire,
  -- as `convert_channels` has them, where the device plays its samples and has other channels.
  abbrev pub sound_of : Bytes → Bytes
  sound_of pcm =
      if not plays_samples || wire.channel_count == format.channel_count
      then pcm
      else convert_channels bytes_per_sample float_mean pcm wire.channel_count format.channel_count
          (bytes_per_sample format.sample_format) wire.sample_format

  unless_empty :
      (s : Bytes) → elim (if not (is_empty s) then some s else none) [ none ↦ [] | some t ↦ t ] ≡ s
  unless_empty [] = refl
  unless_empty (x ∷ s) = refl

  heard-sound_of : (pcm : Bytes) → heard pcm ≡ sound_of pcm
  unfolding for_sink
  heard-sound_of pcm = ground (
    arith,
    unless_empty (
        convert_channels bytes_per_sample float_mean pcm wire.channel_count format.channel_count
          (bytes_per_sample format.sample_format) wire.sample_format),
  )

  -- A block, and how much the device takes when it is called.
  abbrev pub writes : List (Bytes × ℕ) → List (Bytes × Option ℕ)
  writes [] = []
  writes ((pcm, n) ∷ rest) = (pcm, some n) ∷ writes rest

  abbrev pub sounds : List (Bytes × ℕ) → Bytes
  sounds [] = []
  sounds ((pcm, n) ∷ rest) = sound_of pcm ++ sounds rest

  abbrev pub frame : ℕ
  frame = frame125ms bytes_per_sample float_mean format

  -- A round gives a result, in which what the device took and what is kept are what there was and the sound.
  abbrev IsPlayed : Bytes → Bytes → Option (Bytes × Bytes) → Type 0
  IsPlayed buffer sound out = (r : Bytes × Bytes) × (out ≡ some r) × (r.1 ++ r.0 ≡ buffer ++ sound)

  chunk_written :
      (n : ℕ) (full : Bytes)
      → n ≤ frame
      → (r : Bytes × Bytes) × ((if leb frame (length full)
            then some (drop n full, take n (take frame full))
            else some (full, []))
          ≡ some r)
        × (r.1 ++ r.0 ≡ full)
  chunk_written n full h = elim (Bool-cases (leb frame (length full))) [
    | inl f ↦ (
      (drop n full, take n (take frame full)),
      rw f refl,
      rw (take-take_le n frame full h) (take-append-drop n full),
    )
    | inr f ↦ ((full, []), rw f refl, refl)
  ]

  play_block_lem :
      (pcm : Bytes) (n : ℕ) (buffer : Bytes)
      → n ≤ frame
      → IsPlayed buffer
          (heard pcm)
          (play_block bytes_per_sample float_mean wire format true pcm (some n) buffer)
  unfolding play_block
  play_block_lem pcm n buffer h =
      elim (for_sink bytes_per_sample float_mean wire format pcm)
        as (λ o.
          IsPlayed buffer (elim o [ none ↦ [] | some s ↦ s ])
            (elim o [
              | none ↦ some (buffer, [])
              | some s ↦
                  if leb frame (length (buffer ++ s))
                  then some (drop n (buffer ++ s), take n (take frame (buffer ++ s)))
                  else some (buffer ++ s, [])
            ])) [
              | none ↦ ((buffer, []), refl, sym (append-nil buffer))
              | some s ↦ chunk_written n (buffer ++ s) h
            ]

  play_two :
      (pcm : Bytes) (n : ℕ) (rest : List (Bytes × ℕ)) (buffer : Bytes) (r q : Bytes × Bytes)
      → play_block bytes_per_sample float_mean wire format true pcm (some n) buffer ≡ some r
      → play bytes_per_sample float_mean wire format (writes rest) r.0 ≡ some q
      → play bytes_per_sample float_mean wire format (writes ((pcm, n) ∷ rest)) buffer
        ≡ some (q.0, r.1 ++ q.1)
  unfolding play
  play_two pcm n rest buffer r q e f = rw (play, e, f) refl

  played_two :
      (a b c d buffer s t : Bytes)
      → a ++ b ≡ buffer ++ s
      → c ++ d ≡ b ++ t
      → (a ++ c) ++ d ≡ buffer ++ (s ++ t)
  played_two a b c d buffer s t e f =
      rw (append_assoc a c d, f, sym (append_assoc a b t), e) (append_assoc buffer s t)

  -- The sound that the device takes and what waits in the buffer at the end are, in this order, what
  -- waited in the buffer before and the sound of the received blocks: where the samples on the wire
  -- are of the type and the size that the device plays and it has other channels, what
  -- `convert_channels` makes of the block, which is nothing where it cannot convert them; else the block
  -- as it is. The thread goes on. The conditions: there is a device, no write fails, and a write takes at
  -- most a frame of 125 ms.
  pub play-sounds :
      (blocks : List (Bytes × ℕ)) (buffer : Bytes)
      → All (λ b. b.1 ≤ frame) blocks
      → (r : Bytes × Bytes) × (play bytes_per_sample float_mean wire format (writes blocks) buffer
          ≡ some r)
        × (r.1 ++ r.0 ≡ buffer ++ sounds blocks)
  unfolding play
  play-sounds [] buffer h = ((buffer, []), refl, sym (append-nil buffer))
  play-sounds ((pcm, n) ∷ rest) buffer h =
      let one = play_block_lem pcm n buffer h.0 in
      let more = play-sounds rest one.0.0 h.1 in
      (
        (more.0.0, one.0.1 ++ more.0.1),
        play_two pcm n rest buffer one.0 more.0 one.1 more.1,
        played_two one.0.1 one.0.0 more.0.1 more.0.0 buffer (sound_of pcm) (sounds rest)
            (one.2 ∙ ap (λ s. buffer ++ s) (heard-sound_of pcm)) more.2,
      )
