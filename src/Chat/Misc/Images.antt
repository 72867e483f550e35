-- ===== src/Chat/Misc/Images.antt =====
-- chat/src/misc.rs: avatars are pictures.
use why.Common.{ℕ, ◌≤◌, ◌<◌, ◌≡◌, refl, arith, true, Option, none, some, List}
use why.Chat.Misc.{any_magic, is_image, is_png, is_gif, image_dimensions, small_square, is_avatar}

small_square_lem :
    (dimensions : Option (ℕ × ℕ))
    → small_square dimensions ≡ true
    → (side : ℕ) × (dimensions ≡ some (side, side)) × (0 < side) × (side ≤ 512)
unfolding small_square
small_square_lem none e = absurd cc
small_square_lem (some (width, height)) e =
    let square : width ≡ height = ground arith in
    (width, rw square refl, ground arith, ground arith)

is_image_of_dimensions :
    (header : List ℕ) (size : ℕ × ℕ) → image_dimensions header ≡ some size → is_image header ≡ true
unfolding image_dimensions is_image is_png is_gif any_magic
is_image_of_dimensions header size e = ground arith

-- The first bytes that pass as an avatar are those of a picture, whose two sides are equal, not 0 and
-- at most 512.
pub is_avatar-is_image :
    (header : List ℕ)
    → is_avatar header ≡ true
    → (side : ℕ) × (image_dimensions header ≡ some (side, side))
      × (0 < side)
      × (side ≤ 512)
      × (is_image header ≡ true)
unfolding is_avatar
is_avatar-is_image header e =
    let (side, found, above, below) = small_square_lem (image_dimensions header) e in
    (side, found, above, below, is_image_of_dimensions header (side, side) found)
