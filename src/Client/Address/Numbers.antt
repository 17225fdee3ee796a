-- ===== src/Client/Address/Numbers.antt =====
-- client/src/network/messageNet/connection.cpp: the numbers that the regular expressions match.
use cloud_meeting_client.Client.Address.{
  digit, among, is_octet, is_port, validate_ip_port, is_address, split_dots, ip_error, port_error,
  valid_address,
}
use cloud_meeting_client.Prelude.{
  ◌∷◌, ltb, refl, length, ◌*◌, ◌≤◌, arith, ◌-◌, ◌≡◌, ℕ, Bool, ◌&&◌, [], ◌+◌, false, true, Bytes,
  ◌||◌, ◌==◌, ◌∙◌, not, if◌then◌else◌, List,
}

-- The number that a text of digits is, behind the digits of another number.
abbrev pub value_from : ℕ → Bytes → ℕ
value_from n [] = n
value_from n (c ∷ t) = value_from (n * 10 + (c - b'0')) t

abbrev pub digits_only : Bytes → Bool
digits_only [] = true
digits_only (c ∷ t) = digit c && digits_only t

value_from_le : (n : ℕ) (t : Bytes) → n ≤ value_from n t
value_from_le n [] = omega arith
value_from_le n (c ∷ t) = omega (arith, value_from_le (n * 10 + (c - b'0')) t)

-- A part of an address matches when it is one to three digits that make a number below 256.
is_octet_eq :
    (t : Bytes)
    → is_octet t
      ≡ (digits_only t && ltb 0 (length t) && ltb (length t) 4 && ltb (value_from 0 t) 256)
unfolding is_octet
is_octet_eq [] = ground arith
is_octet_eq (a ∷ []) = ground arith
is_octet_eq (a ∷ (b ∷ [])) = ground arith
is_octet_eq (a ∷ (b ∷ (c ∷ []))) = ground arith
is_octet_eq (a ∷ (b ∷ (c ∷ (d ∷ t)))) = ground arith

-- Digits of which the first is not 0, but for 0 itself.
abbrev pub canonical : Bytes → Bool
canonical [] = false
canonical (a ∷ []) = digit a
canonical (a ∷ (b ∷ t)) = among b'1' b'9' a && digits_only (b ∷ t)

below_36 :
    (d e : ℕ)
    → ((among b'0' b'2' d && digit e) || (d == b'3' && among b'0' b'5' e))
      ≡ (digit d && digit e && ltb ((d - 48) * 10 + (e - 48)) 36)
below_36 d e = ground arith

below_536 :
    (c d e : ℕ)
    → ((among b'0' b'4' c && digit d && digit e)
        || (c == b'5' && (digit d && digit e && ltb ((d - 48) * 10 + (e - 48)) 36)))
      ≡ (digit c && digit d && digit e && ltb (((c - 48) * 10 + (d - 48)) * 10 + (e - 48)) 536)
below_536 c d e = ground arith

below_5536 :
    (b c d e : ℕ)
    → ((among b'0' b'4' b && digit c && digit d && digit e)
        || (b == b'5'
            && (digit c
                && digit d
                && digit e
                && ltb (((c - 48) * 10 + (d - 48)) * 10 + (e - 48)) 536)))
      ≡ (digit b
          && digit c
          && digit d
          && digit e
          && ltb ((((b - 48) * 10 + (c - 48)) * 10 + (d - 48)) * 10 + (e - 48)) 5536)
below_5536 b c d e = ground arith

below_65536 :
    (a b c d e : ℕ)
    → ((among b'1' b'5' a && digit b && digit c && digit d && digit e)
        || (a == b'6'
            && (digit b
                && digit c
                && digit d
                && digit e
                && ltb ((((b - 48) * 10 + (c - 48)) * 10 + (d - 48)) * 10 + (e - 48)) 5536)))
      ≡ (canonical (a ∷ b ∷ c ∷ d ∷ e ∷ []) && ltb (value_from 0 (a ∷ b ∷ c ∷ d ∷ e ∷ [])) 65536)
below_65536 a b c d e = ground arith

-- The alternatives with their first digits in common.
regroup :
    (x s p t q u r v : Bool)
    → (x || (s && p) || (s && (t && q)) || (s && (t && (u && r))) || (s && (t && (u && v))))
      ≡ (x || (s && (p || (t && (q || (u && (r || v)))))))
regroup true s p t q u r v = refl
regroup false false p t q u r v = refl
regroup false true true t q u r v = refl
regroup false true false false q u r v = refl
regroup false true false true true u r v = refl
regroup false true false true false false r v = refl
regroup false true false true false true r v = refl

is_port_eq : (t : Bytes) → is_port t ≡ (canonical t && ltb (value_from 0 t) 65536)
unfolding is_port
is_port_eq [] = refl
is_port_eq (a ∷ []) = ground arith
is_port_eq (a ∷ (b ∷ [])) = ground arith
is_port_eq (a ∷ (b ∷ (c ∷ []))) = ground arith
is_port_eq (a ∷ (b ∷ (c ∷ (d ∷ [])))) = ground arith
is_port_eq (a ∷ (b ∷ (c ∷ (d ∷ (e ∷ []))))) =
    regroup (among b'1' b'5' a && digit b && digit c && digit d && digit e) (a == b'6')
      (among b'0' b'4' b && digit c && digit d && digit e) (b == b'5')
      (among b'0' b'4' c && digit d && digit e) (c == b'5') (among b'0' b'2' d && digit e)
      (d == b'3' && among b'0' b'5' e)
    ∙ rw (below_36 d e, below_536 c d e, below_5536 b c d e) (below_65536 a b c d e)
is_port_eq (a ∷ (b ∷ (c ∷ (d ∷ (e ∷ (f ∷ t)))))) = ground (
  arith,
  value_from_le
      ((((((0 * 10 + (a - 48)) * 10 + (b - 48)) * 10 + (c - 48)) * 10 + (d - 48)) * 10 + (e - 48))
          * 10
        + (f - 48))
      t,
)

abbrev pub octet_number : Bytes → Bool
octet_number t = digits_only t && ltb 0 (length t) && ltb (length t) 4 && ltb (value_from 0 t) 256

-- Four parts that are numbers below 256.
abbrev pub four_numbers : List Bytes → Bool
four_numbers (a ∷ (b ∷ (c ∷ (d ∷ [])))) =
    octet_number a && octet_number b && octet_number c && octet_number d
four_numbers _ = false

is_address_eq :
    (parts : List Bytes)
    → (elim parts [
      | a ∷ (b ∷ (c ∷ (d ∷ []))) ↦ is_octet a && is_octet b && is_octet c && is_octet d
      | _ ↦ false
    ])
      ≡ four_numbers parts
is_address_eq [] = refl
is_address_eq (a ∷ []) = refl
is_address_eq (a ∷ (b ∷ [])) = refl
is_address_eq (a ∷ (b ∷ (c ∷ []))) = refl
is_address_eq (a ∷ (b ∷ (c ∷ (d ∷ [])))) =
    rw (is_octet_eq a, is_octet_eq b, is_octet_eq c, is_octet_eq d) refl
is_address_eq (a ∷ (b ∷ (c ∷ (d ∷ (e ∷ parts))))) = refl

-- The check lets an address and a port through exactly when the address has four parts between its
-- dots, each of one to three digits that make a number below 256, and the port is a number below
-- 65536 without zeros in front; otherwise the first of the two that is wrong is told.
pub validate_ip_port_lem :
    (ip port : Bytes)
    → validate_ip_port ip port ≡ (
        if not (four_numbers (split_dots ip))
        then ip_error
        else if not (canonical port && ltb (value_from 0 port) 65536)
        then port_error
        else valid_address)
unfolding validate_ip_port is_address
validate_ip_port_lem ip port = rw (is_address_eq (split_dots ip), is_port_eq port) refl
