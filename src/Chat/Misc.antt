-- ===== src/Chat/Misc.antt =====
-- chat/src/misc.rs: what the first bytes of a file say of it, and hashes in hexadecimal digits. A text is
-- the list of its bytes.
pub mod Images
pub mod Hex
use why.Common.{
  ℕ, ◌+◌, ◌-◌, ◌*◌, ◌/◌, ◌%◌, Bool, true, false, ◌&&◌, ◌||◌, ltb, leb, ◌==◌, if◌then◌else◌, Option,
  none, some, List, [], ◌∷◌, length, take, drop, starts_with, from_be,
}
use why.Core.Auth.{same_bytes}

abbrev avatar_dimension : ℕ
avatar_dimension = 512

-- `\x89PNG\r\n\x1a\n`
abbrev pub png_magic : List ℕ
png_magic = 137 ∷ 80 ∷ 78 ∷ 71 ∷ 13 ∷ 10 ∷ 26 ∷ 10 ∷ []

-- `GIF87a` and `GIF89a`
abbrev pub gif_87_magic : List ℕ
gif_87_magic = 71 ∷ 73 ∷ 70 ∷ 56 ∷ 55 ∷ 97 ∷ []

abbrev pub gif_89_magic : List ℕ
gif_89_magic = 71 ∷ 73 ∷ 70 ∷ 56 ∷ 57 ∷ 97 ∷ []

-- PNG, JPEG, GIF, BMP, ICO, QOI, Radiance, farbfeld and DDS
abbrev magics : List (List ℕ)
magics =
    png_magic
    ∷ (255 ∷ 216 ∷ 255 ∷ [])
    ∷ gif_87_magic
    ∷ gif_89_magic
    ∷ (66 ∷ 77 ∷ [])
    ∷ (0 ∷ 0 ∷ 1 ∷ 0 ∷ [])
    ∷ (113 ∷ 111 ∷ 105 ∷ 102 ∷ [])
    ∷ (35 ∷ 63 ∷ [])
    ∷ (102 ∷ 97 ∷ 114 ∷ 98 ∷ 102 ∷ 101 ∷ 108 ∷ 100 ∷ [])
    ∷ (68 ∷ 68 ∷ 83 ∷ 32 ∷ [])
    ∷ []

unfoldable pub any_magic : List (List ℕ) → List ℕ → Bool
any_magic [] header = false
any_magic (magic ∷ rest) header = starts_with header magic || any_magic rest header

-- `RIFF`, a length and `WEBP`
unfoldable pub is_webp : List ℕ → Bool
is_webp header =
    leb 12 (length header)
    && starts_with header (82 ∷ 73 ∷ 70 ∷ 70 ∷ [])
    && same_bytes (take 4 (drop 8 header)) (87 ∷ 69 ∷ 66 ∷ 80 ∷ [])

abbrev is_ascii_whitespace : ℕ → Bool
is_ascii_whitespace c = c == 9 || c == 10 || c == 12 || c == 13 || c == 32

-- `P`, a digit from 1 to 7 and a white space
unfoldable pub is_pnm : List ℕ → Bool
is_pnm [] = false
is_pnm (a ∷ []) = false
is_pnm (a ∷ b ∷ []) = false
is_pnm (a ∷ b ∷ c ∷ rest) = a == 80 && leb 49 b && leb b 55 && is_ascii_whitespace c

unfoldable pub is_image : List ℕ → Bool
is_image header = any_magic magics header || is_webp header || is_pnm header

-- `u16::from_le_bytes`; the callers have looked at the length.
unfoldable pub from_le_pair : List ℕ → ℕ
from_le_pair [] = 0
from_le_pair (a ∷ []) = 0
from_le_pair (a ∷ b ∷ rest) = a + b * 256

-- `IHDR` at 12
unfoldable pub is_png : List ℕ → Bool
is_png header =
    leb 24 (length header)
    && starts_with header png_magic
    && same_bytes (take 4 (drop 12 header)) (73 ∷ 72 ∷ 68 ∷ 82 ∷ [])

unfoldable pub is_gif : List ℕ → Bool
is_gif header =
    leb 10 (length header) && (starts_with header gif_87_magic || starts_with header gif_89_magic)

unfoldable pub image_dimensions : List ℕ → Option (ℕ × ℕ)
image_dimensions header =
    if is_png header
    then some (from_be 0 (take 4 (drop 16 header)), from_be 0 (take 4 (drop 20 header)))
    else if is_gif header
    then some (from_le_pair (drop 6 header), from_le_pair (drop 8 header))
    else none

unfoldable pub small_square : Option (ℕ × ℕ) → Bool
small_square none = false
small_square (some (width, height)) = width == height && ltb 0 width && leb width avatar_dimension

unfoldable pub is_avatar : List ℕ → Bool
is_avatar header = small_square (image_dimensions header)

abbrev hex_digit : ℕ → ℕ
hex_digit d = if ltb d 10 then 48 + d else 87 + d

-- `{byte:02x}` of every byte
unfoldable pub hex : List ℕ → List ℕ
hex [] = []
hex (byte ∷ bytes) = hex_digit (byte / 16) ∷ hex_digit (byte % 16) ∷ hex bytes

-- A digit of either case.
unfoldable pub digit_value : ℕ → Option ℕ
digit_value c =
    if leb 48 c && leb c 57
    then some (c - 48)
    else if leb 97 c && leb c 102
    then some (c - 87)
    else if leb 65 c && leb c 70
    then some (c - 55)
    else none

abbrev both_digits : Option ℕ → Option ℕ → Option ℕ
both_digits none low = none
both_digits (some h) none = none
both_digits (some h) (some l) = some (h * 16 + l)

-- `u8::from_str_radix` on two bytes, which takes a sign and one digit, too. Bytes that are not UTF-8
-- are no digits.
unfoldable pub pair_value : ℕ → ℕ → Option ℕ
pair_value a b = if a == 43 then digit_value b else both_digits (digit_value a) (digit_value b)

abbrev byte_before : Option ℕ → Option (List ℕ) → Option (List ℕ)
byte_before none rest = none
byte_before (some byte) none = none
byte_before (some byte) (some bytes) = some (byte ∷ bytes)

-- The loop of `unhex`, whose text has an even length.
unfoldable pub unhex_pairs : List ℕ → Option (List ℕ)
unhex_pairs [] = some []
unhex_pairs (a ∷ []) = none
unhex_pairs (a ∷ b ∷ rest) = byte_before (pair_value a b) (unhex_pairs rest)

unfoldable pub unhex : List ℕ → Option (List ℕ)
unhex text = if length text == 64 then unhex_pairs text else none
