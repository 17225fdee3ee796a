-- ===== src/Tests/Sound.antt =====
-- The theorems on the blocks of sound (client/src/message/audio) at concrete blocks.
use cloud_meeting_client.Client.Audio.{SampleFormat, unknown, uint8, int16, int32, float_format}
use cloud_meeting_client.Client.Audio.Devices.{
  Spec, int16_spec, session_wire_pcm_spec, play, block_to_send, for_sink, frame125ms,
}
use cloud_meeting_client.Client.Audio.Playing.{writes, sounds, play-sounds}
use cloud_meeting_client.Client.Audio.Collecting.{for_sink-block_to_send}
use cloud_meeting_client.Prelude.{
  Bytes, some, List, ◌≤◌, refl, ℕ, arith, ◌∷◌, ◌++◌, [], All, ◌≡◌, ◌/◌, ◌*◌, length,
}

abbrev sample_size : SampleFormat → ℕ
sample_size uint8 = 1
sample_size int16 = 2
sample_size int32 = 4
sample_size float_format = 4
sample_size unknown = 0

abbrev left_sample : Bytes → Bytes → Bytes
left_sample l r = l

-- 16 frames a second, so that 125 ms are two frames.
abbrev slow : Spec
slow = int16_spec 16 2

abbrev received : List (Bytes × ℕ)
received = (1 ∷ 2 ∷ 3 ∷ 4 ∷ [], 0) ∷ (5 ∷ 6 ∷ 7 ∷ 8 ∷ [], 6) ∷ (9 ∷ 10 ∷ 11 ∷ [], 0) ∷ []

small_writes : All (λ b. b.1 ≤ frame125ms sample_size left_sample slow) received
unfolding frame125ms
small_writes = (omega arith, (omega arith, (omega arith, tt)))

play-sounds_example :
    (r : Bytes × Bytes) × (play sample_size left_sample session_wire_pcm_spec slow
        (writes sample_size left_sample session_wire_pcm_spec slow received)
        (0 ∷ [])
      ≡ some r)
    × (r.1 ++ r.0 ≡ 0 ∷ sounds sample_size left_sample session_wire_pcm_spec slow received)
play-sounds_example =
    play-sounds sample_size left_sample session_wire_pcm_spec slow received (0 ∷ []) small_writes

abbrev reads : List Bytes
reads = (1 ∷ 2 ∷ []) ∷ (3 ∷ 4 ∷ []) ∷ [] ∷ (5 ∷ []) ∷ []

for_sink-block_to_send_example :
    (block_to_send sample_size left_sample
        (int16_spec 8000 1)
        session_wire_pcm_spec
        (1 ∷ 2 ∷ 3 ∷ [])
      ≡ (1 ∷ 2 ∷ 1 ∷ 2 ∷ []) ∷ [])
    × (for_sink sample_size left_sample session_wire_pcm_spec
          (int16_spec 8000 1)
          (1 ∷ 2 ∷ 1 ∷ 2 ∷ [])
        ≡ some (1 ∷ 2 ∷ 1 ∷ 2 ∷ []))
    × (let pcm : Bytes = 1 ∷ 2 ∷ 3 ∷ [] in
        let twice : Bytes = 1 ∷ 2 ∷ 1 ∷ 2 ∷ [] in length twice ≡ 2 * (2 * (length pcm / 2)))
for_sink-block_to_send_example =
    for_sink-block_to_send sample_size left_sample 8000 (1 ∷ 2 ∷ 3 ∷ []) refl (omega arith)
