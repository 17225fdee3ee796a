-- ===== src/Prelude/Words.antt =====
-- Bytes, and big-endian words of two and four bytes.
use Prim.Native.Nat.{ℕ, ◌+◌, ◌*◌, ◌/◌, ◌%◌, ◌<◌}
use mathlib.Core.Path.{◌≡◌}
use mathlib.Core.List.{List, [], ◌∷◌}
use native.Mathlib.Omega.{arith}
use cloud_meeting_client.Prelude.Lists.{get_or, All}

abbrev pub Bytes : Type 0
Bytes = List ℕ

abbrev pub IsByte : ℕ → Type 0
IsByte b = b < 256

abbrev pub AreBytes : Bytes → Type 0
AreBytes = All IsByte

-- The two bytes of a word below 2 ^ 16, the most significant first.
abbrev pub be16 : ℕ → Bytes
be16 v = (v / 256 % 256) ∷ (v % 256) ∷ []

-- The four bytes of a word below 2 ^ 32, the most significant first.
abbrev pub be32 : ℕ → Bytes
be32 v = (v / 16777216 % 256) ∷ (v / 65536 % 256) ∷ (v / 256 % 256) ∷ (v % 256) ∷ []

-- The word of the first two or four bytes of a block; bytes past its end count as 0.
abbrev pub of_be16 : Bytes → ℕ
of_be16 d = get_or d 0 0 * 256 + get_or d 1 0

abbrev pub of_be32 : Bytes → ℕ
of_be32 d = get_or d 0 0 * 16777216 + get_or d 1 0 * 65536 + get_or d 2 0 * 256 + get_or d 3 0

pub of_be16-be16 : (v : ℕ) → v < 65536 → of_be16 (be16 v) ≡ v
of_be16-be16 v h = omega arith

pub of_be32-be32 : (v : ℕ) → v < 4294967296 → of_be32 (be32 v) ≡ v
of_be32-be32 v h = omega arith
