-- ===== src/Client/Audio/Collecting.antt =====
-- client/src/message/audio/AudioInput.cpp and AudioOutput.cpp: the blocks of sound that are sent for
-- what a device reads, and what another one plays of them.
use cloud_meeting_client.Client.Audio.{SampleFormat, int16, dup_frames, convert_channels}
use cloud_meeting_client.Client.Audio.Devices.{
  Spec, AudioInput, int16_spec, session_wire_pcm_spec, block_to_send, on_ready_read, after_read,
  collect, for_sink,
}
use cloud_meeting_client.Prelude.{
  List, ◌≤◌, [], ◌/◌, ◌≡◌, ◌∷◌, ◌*◌, length, some, true, refl, ◌++◌, Bytes, Option, ℕ, false, ◌==◌,
  arith, suc, ap,
}
use cloud_meeting_client.Server.Connection.{is_empty}

module _ (bytes_per_sample : SampleFormat → ℕ) (float_mean : Bytes → Bytes → Bytes) where
  module _ (af wire : Spec) where
    -- The blocks of three reads each, and the reads that are left.
    abbrev pub blocks_of : List Bytes → List Bytes
    blocks_of [] = []
    blocks_of (a ∷ []) = []
    blocks_of (a ∷ (b ∷ [])) = []
    blocks_of (a ∷ (b ∷ (c ∷ rs))) =
        block_to_send bytes_per_sample float_mean af wire ((a ++ b) ++ c) ++ blocks_of rs

    abbrev pub left_of : List Bytes → AudioInput
    left_of [] = record { has_device = true; has_hub = true; num = 0; collected = [] }
    left_of (a ∷ []) = record { has_device = true; has_hub = true; num = 1; collected = a }
    left_of (a ∷ (b ∷ [])) = record {
      has_device = true;
      has_hub = true;
      num = 2;
      collected = a ++ b;
    }
    left_of (a ∷ (b ∷ (c ∷ rs))) = left_of rs

    abbrev pub good_reads : List Bytes → List (Option Bytes)
    good_reads [] = []
    good_reads (a ∷ rs) = some a ∷ good_reads rs

    collect_three :
        (a b c : Bytes) (rs : List (Option Bytes)) (q : AudioInput × List Bytes)
        → collect bytes_per_sample float_mean af wire rs (left_of []) ≡ some q
        → collect bytes_per_sample float_mean af wire (some a ∷ some b ∷ some c ∷ rs) (left_of [])
          ≡ some (q.0, block_to_send bytes_per_sample float_mean af wire ((a ++ b) ++ c) ++ q.1)
    unfolding collect on_ready_read after_read
    collect_three a b c rs q e = rw (collect, e) refl

    -- The hub gets a block for every three reads, in order: their bytes with the channels of the wire,
    -- or nothing where these cannot be had; the reads that are left wait in the buffer. The conditions: a
    -- device and a hub are there, the buffer is empty before, and no read fails.
    pub collect-blocks_of :
        (reads : List Bytes)
        → collect bytes_per_sample float_mean af wire (good_reads reads) (left_of [])
          ≡ some (left_of reads, blocks_of reads)
    unfolding collect on_ready_read after_read
    collect-blocks_of [] = refl
    collect-blocks_of (a ∷ []) = refl
    collect-blocks_of (a ∷ (b ∷ [])) = refl
    collect-blocks_of (a ∷ (b ∷ (c ∷ rs))) =
        collect_three a b c (good_reads rs) (left_of rs, blocks_of rs) (collect-blocks_of rs)

  -- Every sample of two bytes twice, one after the other; a byte that is left over is not there.
  abbrev pub each_twice : Bytes → Bytes
  each_twice [] = []
  each_twice (x ∷ []) = []
  each_twice (x ∷ (y ∷ pcm)) = x ∷ (y ∷ (x ∷ (y ∷ each_twice pcm)))

  dup_frames-each_twice : (pcm : Bytes) → dup_frames 2 (length pcm / 2) pcm ≡ each_twice pcm
  unfolding dup_frames
  dup_frames-each_twice [] = refl
  dup_frames-each_twice (x ∷ []) = refl
  dup_frames-each_twice (x ∷ (y ∷ pcm)) =
      let half : length (x ∷ (y ∷ pcm)) / 2 ≡ suc (length pcm / 2) = omega arith in
      rw half (ap (λ d. x ∷ (y ∷ (x ∷ (y ∷ d)))) (dup_frames-each_twice pcm))

  each_twice_cons : (pcm : Bytes) → 2 ≤ length pcm → is_empty (each_twice pcm) ≡ false
  each_twice_cons [] h = absurd (omega (arith, h))
  each_twice_cons (x ∷ []) h = absurd (omega (arith, h))
  each_twice_cons (x ∷ (y ∷ pcm)) h = refl

  length-each_twice : (pcm : Bytes) → length (each_twice pcm) ≡ 2 * (2 * (length pcm / 2))
  length-each_twice [] = refl
  length-each_twice (x ∷ []) = refl
  length-each_twice (x ∷ (y ∷ pcm)) = omega (arith, length-each_twice pcm)

  -- A block of at least one sample from a device with one channel of 16 bits is sent with every sample
  -- twice, one after the other, and a device of that format plays all of it, twice as many bytes as
  -- the samples of the block have: the samples on the wire are said to be of type `float`, so the
  -- channels are not converted back. The size of a sample of 16 bits is 2.
  pub for_sink-block_to_send :
      (rate : ℕ) (pcm : Bytes)
      → bytes_per_sample int16 ≡ 2
      → 2 ≤ length pcm
      → (block_to_send bytes_per_sample float_mean (int16_spec rate 1) session_wire_pcm_spec pcm
          ≡ each_twice pcm ∷ [])
        × (for_sink bytes_per_sample float_mean session_wire_pcm_spec
              (int16_spec rate 1)
              (each_twice pcm)
            ≡ some (each_twice pcm))
        × (length (each_twice pcm) ≡ 2 * (2 * (length pcm / 2)))
  unfolding block_to_send for_sink convert_channels session_wire_pcm_spec
  for_sink-block_to_send rate pcm q h =
      let some_frames : (length pcm / 2 == 0) ≡ false = ground (arith, h) in
      (
        rw (q, some_frames, dup_frames-each_twice pcm, each_twice_cons pcm h) refl,
        refl,
        length-each_twice pcm,
      )
