-- ===== src/Client/Audio/RoundTrip.antt =====
-- client/src/message/audio/AudioFormatStd.cpp: one channel made two and one again.
use cloud_meeting_client.Client.Audio.{
  unknown, float_format, uint8, int16, int32, signed_mean, SampleFormat, merge_stereo_frame,
  merge_frames, dup_frames, convert_channels,
}
use cloud_meeting_client.Prelude.{
  arith, ℕ, ◌≡◌, ◌^◌, ◌<◌, ◌∷◌, AreBytes, ap₂, ◌*◌, some, drop, Bytes, ◌≤◌, length, ◌+◌, suc, zero,
  refl, take, ap, [], ◌++◌, IsByte, ◌%◌, sym, ◌/◌, length-drop, take_nil, All-drop, take-append,
  drop-append, All-take, length-take, true, Bool-cases, false, ==_refl, length-append, inl, ◌==◌,
  inr, ==_iff, ◌∙◌,
}

signed_mean-same_16 : (v : ℕ) → v < 65536 → signed_mean (2 ^ 15) v v ≡ v
unfolding signed_mean
signed_mean-same_16 v h = ground arith

signed_mean-same_32 : (v : ℕ) → v < 4294967296 → signed_mean (2 ^ 31) v v ≡ v
unfolding signed_mean
signed_mean-same_32 v h = ground arith

-- The formats of whole numbers, with their sizes.
abbrev pub width : SampleFormat → ℕ
width uint8 = 1
width int16 = 2
width int32 = 4
width _ = 0

abbrev word : ℕ → ℕ → ℕ → ℕ → ℕ
word x y z u = x + y * 256 + z * 65536 + u * 16777216

least : (x y z u : ℕ) → x < 256 → y < 256 → z < 256 → u < 256 → word x y z u % 256 ≡ x
least x y z u a b c d = omega arith

second : (x y z u : ℕ) → x < 256 → y < 256 → z < 256 → u < 256 → word x y z u / 256 % 256 ≡ y
second x y z u a b c d = omega arith

third : (x y z u : ℕ) → x < 256 → y < 256 → z < 256 → u < 256 → word x y z u / 65536 % 256 ≡ z
third x y z u a b c d = omega arith

fourth : (x y z u : ℕ) → x < 256 → y < 256 → z < 256 → u < 256 → word x y z u / 16777216 % 256 ≡ u
fourth x y z u a b c d = omega arith

take-split : (m b : ℕ) (xs : Bytes) → take (b + m) xs ≡ take b xs ++ take m (drop b xs)
take-split m zero xs = let e : zero + m ≡ m = omega arith in rw e refl
take-split m (suc b) [] = rw (take_nil (suc b + m), take_nil m) refl
take-split m (suc b) (x ∷ xs) =
    let e : suc b + m ≡ suc (b + m) = omega arith in rw e (ap (◌∷◌ x) (take-split m b xs))

module _ (bytes_per_sample : SampleFormat → ℕ) (float_mean : Bytes → Bytes → Bytes) where
  merge-same :
      (format : SampleFormat) (f : Bytes)
      → 0 < width format
      → length f ≡ width format
      → AreBytes f
      → merge_stereo_frame bytes_per_sample float_mean format f f ≡ some f
  unfolding merge_stereo_frame
  merge-same uint8 (x ∷ []) w h a = ap (λ v. some (v ∷ [])) (omega arith)
  merge-same int16 (x ∷ (y ∷ [])) w h (a, (c, t)) =
      rw (signed_mean-same_16 (x + y * 256) (omega (arith, a, c)))
        (ap₂ (λ u v. some (u ∷ v ∷ [])) (omega (arith, a, c)) (omega (arith, a, c)))
  merge-same int32 (x ∷ (y ∷ (z ∷ (u ∷ [])))) w h (a, (c, (d, (e, t)))) =
      rw
        (
          signed_mean-same_32 (x + y * 256 + z * 65536 + u * 16777216) (omega (arith, a, c, d, e)),
          least x y z u a c d e,
          second x y z u a c d e,
          third x y z u a c d e,
          fourth x y z u a c d e,
        )
        refl
  merge-same uint8 [] w h a = absurd (omega (arith, h))
  merge-same uint8 (x ∷ (y ∷ f)) w h a = absurd (omega (arith, h))
  merge-same int16 [] w h a = absurd (omega (arith, h))
  merge-same int16 (x ∷ []) w h a = absurd (omega (arith, h))
  merge-same int16 (x ∷ (y ∷ (z ∷ f))) w h a = absurd (omega (arith, h))
  merge-same int32 [] w h a = absurd (omega (arith, h))
  merge-same int32 (x ∷ []) w h a = absurd (omega (arith, h))
  merge-same int32 (x ∷ (y ∷ [])) w h a = absurd (omega (arith, h))
  merge-same int32 (x ∷ (y ∷ (z ∷ []))) w h a = absurd (omega (arith, h))
  merge-same int32 (x ∷ (y ∷ (z ∷ (u ∷ (v ∷ f))))) w h a = absurd (omega (arith, h))
  merge-same unknown f w h a = absurd (omega (arith, w))
  merge-same float_format f w h a = absurd (omega (arith, w))

  merge_frames-dup_frames :
      (format : SampleFormat) (n : ℕ) (pcm : Bytes)
      → 0 < width format
      → AreBytes pcm
      → width format * n ≤ length pcm
      → merge_frames bytes_per_sample float_mean format
          (width format)
          n
          (dup_frames (width format) n pcm)
        ≡ take (width format * n) pcm
  unfolding merge_frames dup_frames
  merge_frames-dup_frames format zero pcm w a h =
      let e : width format * zero ≡ 0 = omega arith in rw e refl
  merge_frames-dup_frames format (suc n) pcm w a h =
      let b = width format in
      let f = take b pcm in
      let rest = dup_frames b n (drop b pcm) in
      let more : b * suc n ≡ b + b * n = omega arith in
      let size : b ≡ length f = omega (arith, length-take b pcm, h) in
      rw
        (
          more,
          take-append f (f ++ rest) b size,
          drop-append f (f ++ rest) b size,
          take-append f rest b size,
          drop-append f rest b size,
          merge-same format f w (sym size) (All-take IsByte b pcm a),
          merge_frames-dup_frames format n (drop b pcm) w (All-drop IsByte b pcm a)
              (omega (arith, h, length-drop b pcm)),
        )
        (sym (take-split (b * n) b pcm))

  pub length-dup_frames :
      (b n : ℕ) (pcm : Bytes) → b * n ≤ length pcm → length (dup_frames b n pcm) ≡ 2 * b * n
  unfolding dup_frames
  length-dup_frames b zero pcm h = omega arith
  length-dup_frames b (suc n) pcm h =
      let rest = dup_frames b n (drop b pcm) in
      omega (
        arith,
        h,
        length-append (take b pcm) (take b pcm ++ rest),
        length-append (take b pcm) rest,
        length-take b pcm,
        length-dup_frames b n (drop b pcm) (omega (arith, h, length-drop b pcm)),
      )

  halves :
      (format : SampleFormat) (n : ℕ)
      → 0 < width format
      → 2 * width format * n / (2 * width format) ≡ n
  halves uint8 n w = omega arith
  halves int16 n w = omega arith
  halves int32 n w = omega arith
  halves unknown n w = absurd (omega (arith, w))
  halves float_format n w = absurd (omega (arith, w))

  no_frames : (format : SampleFormat) → 0 < width format → 0 / (2 * width format) ≡ 0
  no_frames uint8 w = omega arith
  no_frames int16 w = omega arith
  no_frames int32 w = omega arith
  no_frames unknown w = absurd (omega (arith, w))
  no_frames float_format w = absurd (omega (arith, w))

  whole_frames :
      (format : SampleFormat) (n : ℕ)
      → 0 < width format
      → width format * (n / (1 * width format)) ≤ n
  whole_frames uint8 n w = omega arith
  whole_frames int16 n w = omega arith
  whole_frames int32 n w = omega arith
  whole_frames unknown n w = absurd (omega (arith, w))
  whole_frames float_format n w = absurd (omega (arith, w))

  abbrev pub converts : Bytes → ℕ → ℕ → SampleFormat → Bytes
  converts pcm from to format =
      convert_channels bytes_per_sample float_mean pcm from to (width format) format

  -- One channel made two and then one again gives the samples back, without an incomplete one at the end,
  -- for the formats of whole numbers, when the sizes of Qt are those of the formats and the data are
  -- bytes.
  pub convert_channels_back :
      (format : SampleFormat) (pcm : Bytes)
      → 0 < width format
      → bytes_per_sample format ≡ width format
      → AreBytes pcm
      → converts (converts pcm 1 2 format) 2 1 format
        ≡ take (width format * (length pcm / (1 * width format))) pcm
  unfolding convert_channels
  convert_channels_back format pcm w q a =
      let b = width format in
      let n = length pcm / (1 * b) in
      let positive : (b == 0) ≡ false = ground (arith, w) in
      let same_size : (b == b) ≡ true = ==_refl b in
      let none_left : (n == 0) ≡ true → b * n ≡ 0 =
        λ e. ap (λ k. b * k) ((==_iff n 0).0 e) ∙ omega arith in
      elim (Bool-cases (n == 0)) [
        | inl e ↦ rw (q, positive, same_size, e) (rw (no_frames format w, none_left e) refl)
        | inr e ↦
            rw
              (
                q,
                positive,
                same_size,
                e,
                length-dup_frames b n pcm (whole_frames format (length pcm) w),
                halves format n w,
                e,
              )
              (merge_frames-dup_frames format n pcm w a (whole_frames format (length pcm) w))
      ]
