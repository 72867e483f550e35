-- ===== src/Chat/Misc/Hex.antt =====
-- chat/src/misc.rs: a hash is read back from its digits.
use why.Common.{
  ℕ, ◌*◌, ◌/◌, ◌%◌, ◌<◌, ◌≡◌, refl, ap, arith, false, ◌==◌, ==_iff, some, List, [], ◌∷◌, length,
  All, IsByte,
}
use why.Chat.Misc.{hex_digit, hex, digit_value, pair_value, unhex_pairs, unhex}

digit_value-hex_digit : (d : ℕ) → d < 16 → digit_value (hex_digit d) ≡ some d
unfolding digit_value
digit_value-hex_digit d p = ground arith

pair_value_lem :
    (byte : ℕ) → byte < 256 → pair_value (hex_digit (byte / 16)) (hex_digit (byte % 16)) ≡ some byte
unfolding pair_value
pair_value_lem byte p =
    let plus : (hex_digit (byte / 16) == 43) ≡ false = ground arith in
    rw
      (
        plus,
        digit_value-hex_digit (byte / 16) (omega arith),
        digit_value-hex_digit (byte % 16) (omega arith),
      )
      (ap some (omega arith))

unhex_pairs-hex : (bytes : List ℕ) → All IsByte bytes → unhex_pairs (hex bytes) ≡ some bytes
unfolding unhex_pairs hex
unhex_pairs-hex [] v = refl
unhex_pairs-hex (byte ∷ bytes) v = rw (pair_value_lem byte v.0, unhex_pairs-hex bytes v.1) refl

length-hex : (bytes : List ℕ) → length (hex bytes) ≡ length bytes * 2
unfolding hex
length-hex [] = refl
length-hex (byte ∷ bytes) = omega (arith, length-hex bytes)

-- The 32 bytes of a hash are read back from their digits.
pub unhex-hex :
    (bytes : List ℕ) → All IsByte bytes → length bytes ≡ 32 → unhex (hex bytes) ≡ some bytes
unfolding unhex
unhex-hex bytes v size =
    let whole : length (hex bytes) ≡ 64 = omega (arith, length-hex bytes) in
    rw ((==_iff (length (hex bytes)) 64).1 whole) (unhex_pairs-hex bytes v)
