-- ===== src/Tests/Misc.antt =====
-- chat/src/misc.rs: the first bytes of a small GIF, and a hash in digits.
use why.Common.{
  ℕ, ◌≤◌, ◌<◌, ◌≡◌, refl, arith, true, some, List, [], ◌∷◌, ◌++◌, replicate, IsByte, All-replicate,
}
use why.Common.Bytes.{starts_with}
use why.Chat.Misc.{
  gif_89_magic, is_image, from_le_pair, is_png, is_gif, image_dimensions, small_square, is_avatar,
  hex, digit_value, pair_value, unhex_pairs, unhex,
}
use why.Chat.Misc.Images.{is_avatar-is_image}
use why.Chat.Misc.Hex.{unhex-hex}

-- 258 to 258
abbrev gif : List ℕ
gif = gif_89_magic ++ (2 ∷ 1 ∷ 2 ∷ 1 ∷ [])

gif_size : image_dimensions gif ≡ some (258, 258)
unfolding image_dimensions is_png is_gif starts_with from_le_pair
gif_size = refl

gif_avatar : is_avatar gif ≡ true
unfolding is_avatar small_square image_dimensions is_png is_gif starts_with from_le_pair
gif_avatar = refl

is_avatar-is_image_example :
    (side : ℕ) × (image_dimensions gif ≡ some (side, side))
    × (0 < side)
    × (side ≤ 512)
    × (is_image gif ≡ true)
is_avatar-is_image_example = is_avatar-is_image gif gif_avatar

digits : hex (10 ∷ 255 ∷ []) ≡ 48 ∷ 97 ∷ 102 ∷ 102 ∷ []
unfolding hex
digits = refl

-- A sign is taken for a digit.
signed : unhex_pairs (43 ∷ 102 ∷ []) ≡ some (15 ∷ [])
unfolding unhex_pairs pair_value digit_value
signed = refl

unhex-hex_example : unhex (hex (replicate 32 171)) ≡ some (replicate 32 171)
unhex-hex_example = unhex-hex (replicate 32 171) (All-replicate IsByte 32 171 (omega arith)) refl
