-- ===== src/Client/Address.antt =====
-- client/src/network/messageNet/connection.cpp: the check of an address and a port by regular
-- expressions, which a text has to match as a whole. The parts of the first one have no dot, so a text
-- matches it when what stands between its dots matches the parts.
pub mod Numbers
use cloud_meeting_client.Prelude.{
  Bytes, ◌&&◌, Bool, [], ◌==◌, if◌then◌else◌, ℕ, List, not, ◌||◌, false, leb, ◌∷◌,
}

-- Whether a character is one of two digits or one between them.
abbrev pub among : ℕ → ℕ → ℕ → Bool
among low high c = leb low c && leb c high

abbrev pub digit : ℕ → Bool
digit = among b'0' b'9'

-- `25[0-5]|2[0-4][0-9]|[01]?[0-9][0-9]?`
unfoldable pub is_octet : Bytes → Bool
is_octet (a ∷ []) = digit a
is_octet (a ∷ (b ∷ [])) = digit a && digit b
is_octet (a ∷ (b ∷ (c ∷ []))) =
    (a == b'2' && b == b'5' && among b'0' b'5' c)
    || (a == b'2' && among b'0' b'4' b && digit c)
    || (among b'0' b'1' a && digit b && digit c)
is_octet _ = false

-- `[0-9]|[1-9]\d|[1-9]\d{2}|[1-9]\d{3}|[1-5]\d{4}|6[0-4]\d{3}|65[0-4]\d{2}|655[0-2]\d|6553[0-5]`
unfoldable pub is_port : Bytes → Bool
is_port (a ∷ []) = digit a
is_port (a ∷ (b ∷ [])) = among b'1' b'9' a && digit b
is_port (a ∷ (b ∷ (c ∷ []))) = among b'1' b'9' a && digit b && digit c
is_port (a ∷ (b ∷ (c ∷ (d ∷ [])))) = among b'1' b'9' a && digit b && digit c && digit d
is_port (a ∷ (b ∷ (c ∷ (d ∷ (e ∷ []))))) =
    (among b'1' b'5' a && digit b && digit c && digit d && digit e)
    || (a == b'6' && (among b'0' b'4' b && digit c && digit d && digit e))
    || (a == b'6' && (b == b'5' && (among b'0' b'4' c && digit d && digit e)))
    || (a == b'6' && (b == b'5' && (c == b'5' && (among b'0' b'2' d && digit e))))
    || (a == b'6' && (b == b'5' && (c == b'5' && (d == b'3' && among b'0' b'5' e))))
is_port _ = false

-- The parts between the dots.
unfoldable pub split_dots : Bytes → List Bytes
split_dots [] = [] ∷ []
split_dots (c ∷ t) =
    let parts = split_dots t in
    if c == b'.' then [] ∷ parts else elim parts [ [] ↦ (c ∷ []) ∷ [] | p ∷ ps ↦ (c ∷ p) ∷ ps ]

unfoldable pub is_address : Bytes → Bool
is_address t = elim (split_dots t) [
  | a ∷ (b ∷ (c ∷ (d ∷ []))) ↦ is_octet a && is_octet b && is_octet c && is_octet d
  | _ ↦ false
]

pub data Validity : Type 0 where
  valid_address ip_error port_error : Validity

-- The box that tells an error is part of the result.
unfoldable pub validate_ip_port : Bytes → Bytes → Validity
validate_ip_port ip port =
    if not (is_address ip)
    then ip_error
    else if not (is_port port)
    then port_error
    else valid_address
