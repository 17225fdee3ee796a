-- ===== src/Client/Audio.antt =====
-- client/src/message/audio/AudioFormatStd.cpp: one channel from two and two from one. What a format's
-- sample takes (`QAudioFormat::bytesPerSample`) and the mean of two samples of type `float` are
-- parameters; the other samples are words of the machine, the least significant byte first.
pub mod RoundTrip
pub mod Devices
pub mod Playing
pub mod Collecting
use cloud_meeting_client.Prelude.{
  ◌/◌, get_or, ◌==◌, not, if◌then◌else◌, ◌*◌, take, ◌^◌, zero, ◌∷◌, ◌-◌, ◌||◌, some, ◌+◌, suc, leb,
  ltb, Bytes, Bool, none, ◌%◌, ◌++◌, Option, length, [], ℕ, drop,
}
use cloud_meeting_client.Client.Codec.{of_le32}

pub data SampleFormat : Type 0 where
  unknown uint8 int16 int32 float_format : SampleFormat

-- `(l + r) / 2` on signed words below `2 ^ w`, where `half` is `2 ^ (w - 1)`: the quotient is cut towards
-- zero.
unfoldable pub signed_mean : ℕ → ℕ → ℕ → ℕ
signed_mean half l r =
    let pos = (if ltb l half then l else 0) + (if ltb r half then r else 0) in
    let neg = (if ltb l half then 0 else 2 * half - l) + (if ltb r half then 0 else 2 * half - r) in
    if leb neg pos then (pos - neg) / 2 else (2 * half - (neg - pos) / 2) % (2 * half)

abbrev pub le16 : ℕ → Bytes
le16 v = (v % 256) ∷ (v / 256 % 256) ∷ []

abbrev pub le32 : ℕ → Bytes
le32 v = (v % 256) ∷ (v / 256 % 256) ∷ (v / 65536 % 256) ∷ (v / 16777216 % 256) ∷ []

abbrev pub of_le16 : Bytes → ℕ
of_le16 d = get_or d 0 0 + get_or d 1 0 * 256

-- A number of frames: each of them twice.
unfoldable pub dup_frames : ℕ → ℕ → Bytes → Bytes
dup_frames b zero pcm = []
dup_frames b (suc n) pcm = take b pcm ++ (take b pcm ++ dup_frames b n (drop b pcm))

abbrev pub channels_supported : ℕ → Bool
channels_supported ch = ch == 1 || ch == 2

module _ (bytes_per_sample : SampleFormat → ℕ) (float_mean : Bytes → Bytes → Bytes) where
  -- `none` where the format has no mean.
  unfoldable pub merge_stereo_frame : SampleFormat → Bytes → Bytes → Option Bytes
  merge_stereo_frame uint8 l r = some ((get_or l 0 0 + get_or r 0 0) / 2 ∷ [])
  merge_stereo_frame int16 l r = some (le16 (signed_mean (2 ^ 15) (of_le16 l) (of_le16 r)))
  merge_stereo_frame int32 l r = some (le32 (signed_mean (2 ^ 31) (of_le32 l) (of_le32 r)))
  merge_stereo_frame float_format l r = some (float_mean l r)
  merge_stereo_frame unknown l r = none

  abbrev pub or_left : Option Bytes → Bytes → Bytes
  or_left none l = l
  or_left (some d) l = d

  unfoldable pub merge_frames : SampleFormat → ℕ → ℕ → Bytes → Bytes
  merge_frames format b zero pcm = []
  merge_frames format b (suc n) pcm =
      let l = take b pcm in
      let r = take b (drop b pcm) in
      or_left (merge_stereo_frame format l r) l ++ merge_frames format b n (drop b (drop b pcm))

  unfoldable pub convert_channels : Bytes → ℕ → ℕ → ℕ → SampleFormat → Bytes
  convert_channels pcm from_channels to_channels b format =
      if not (channels_supported from_channels) || not (channels_supported to_channels)
      then []
      else if b == 0
      then []
      else if bytes_per_sample format == 0 || not (bytes_per_sample format == b)
      then []
      else if from_channels == to_channels
      then pcm
      else let n_frames = length pcm / (from_channels * b) in
        if n_frames == 0
        then []
        else if from_channels == 1
        then dup_frames b n_frames pcm
        else merge_frames format b n_frames pcm
