-- ===== src/Tests/Uploads.antt =====
-- chat/src/network/file/server.rs: a small picture, uploaded and read back.
use why.Common.{ℕ, ◌≡◌, refl, arith, true, some, List, [], ◌∷◌}
use why.Common.Bytes.{starts_with}
use why.Core.Outcome.{ok}
use why.Chat.Files.{image, persistent}
use why.Chat.Misc.{any_magic, is_image}
use why.Chat.Uploads.{
  ActiveFileshare, stored, admitted, ceiling, first_valid, parsed, new_upload, receive_upload,
  read_image,
}
use why.Chat.Uploads.Chunks.{Regular}
use why.Chat.Uploads.Stored.{read_image-receive_upload}
use why.Tests.Fixtures.{toy, toy_mac, toy_hkdf}
use why.Tests.Clips.{clip_codec}

-- The first bytes of a JPEG.
abbrev picture : List ℕ
picture = 255 ∷ 216 ∷ 255 ∷ 224 ∷ []

kept : persistent image ≡ true
unfolding persistent
kept = refl

taken : admitted image 4 1 ≡ true
unfolding admitted ceiling persistent
taken = refl

jpeg : first_valid image picture ≡ true
unfolding first_valid is_image any_magic starts_with
jpeg = refl

no_clip : parsed clip_codec image (some picture) ≡ true
unfolding parsed
no_clip = refl

read_image-receive_upload_example :
    (begin : ActiveFileshare) × (content : List ℕ) × (new_upload toy toy_mac toy_hkdf true [] 3
        picture 4
      ≡ ok begin)
    × (receive_upload toy toy_mac clip_codec true image 3 begin (picture ∷ [])
        ≡ ok (stored content))
    × (read_image toy toy_mac toy_hkdf true [] picture content ≡ ok (some picture))
unfolding Regular
read_image-receive_upload_example =
    read_image-receive_upload toy toy_mac toy_hkdf clip_codec true [] image 3 1 picture [] kept
      (omega arith, tt) (omega arith, omega arith) taken jpeg no_clip
