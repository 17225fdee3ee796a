-- ===== src/Auth/Hash.antt =====
-- server2/src/util/password_hasher.cpp. The digest of SHA-256 is a parameter.
use cloud_meeting_client.Prelude.{
  ℕ, Bytes, Bool, same, ltb, ◌+◌, ◌-◌, ◌/◌, ◌%◌, if◌then◌else◌, [], ◌∷◌, AreBytes, same→eq, ◌<◌,
  same_refl, ◌≡◌, arith, true, ◌↔◌, refl,
}

-- A digit of `std::hex`.
unfoldable pub hex_digit : ℕ → ℕ
hex_digit n = if ltb n 10 then b'0' + n else b'a' + (n - 10)

-- The loop over the digest: two digits for each byte, with `setw(2)` and `setfill('0')`.
unfoldable pub to_hex : Bytes → Bytes
to_hex [] = []
to_hex (b ∷ digest) = hex_digit (b / 16) ∷ (hex_digit (b % 16) ∷ to_hex digest)

module _ (sha256 : Bytes → Bytes) where
  unfoldable pub sha256_hex : Bytes → Bytes
  sha256_hex plain = to_hex (sha256 plain)

  unfoldable pub verify_password : Bytes → Bytes → Bool
  verify_password plain expected_hash = same (sha256_hex plain) expected_hash

hex_digit-injective : (m n : ℕ) → m < 16 → n < 16 → hex_digit m ≡ hex_digit n → m ≡ n
unfolding hex_digit
hex_digit-injective m n h k e = ground arith

to_hex-injective : (xs ys : Bytes) → AreBytes xs → AreBytes ys → to_hex xs ≡ to_hex ys → xs ≡ ys
unfolding to_hex
to_hex-injective [] [] h k e = refl
to_hex-injective [] (y ∷ ys) h k e = cc
to_hex-injective (x ∷ xs) [] h k e = cc
to_hex-injective (x ∷ xs) (y ∷ ys) h k e = ground (
  arith,
  hex_digit-injective (x / 16) (y / 16),
  hex_digit-injective (x % 16) (y % 16),
  to_hex-injective xs ys h.1 k.1,
)

-- A password is accepted for a stored hash that is the hash of another text exactly when the two
-- digests are equal, where a digest is a list of bytes.
pub verify_password_iff :
    (sha256 : Bytes → Bytes) (plain stored : Bytes)
    → ((t : Bytes) → AreBytes (sha256 t))
    → (verify_password sha256 plain (sha256_hex sha256 stored) ≡ true)
      ↔ (sha256 plain ≡ sha256 stored)
unfolding verify_password sha256_hex
verify_password_iff sha256 plain stored bytes = (
  λ h.
      to_hex-injective (sha256 plain) (sha256 stored) (bytes plain) (bytes stored)
        (same→eq (to_hex (sha256 plain)) (to_hex (sha256 stored)) h),
  λ e. rw e (same_refl (to_hex (sha256 stored))),
)
