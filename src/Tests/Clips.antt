-- ===== src/Tests/Clips.antt =====
-- chat/src/network/voice/message.rs: a clip of one frame.
use why.Common.{
  ℕ, ◌*◌, ◌≤◌, ◌<◌, ◌≡◌, refl, sym, ap, ap₂, Bool, true, false, some, List, [], ◌∷◌, ◌++◌, length,
  All,
}
use why.Common.Words.{be_bytes, to_be_bytes, from_be, from_be_bytes}
use why.Common.Bytes.{starts_with}
use why.Core.Auth.{same_bytes}
use why.Core.Auth.Packets.{same_bytes-eq}
use why.Chat.Network.{Codec}
use why.Chat.Clips.{
  Clip, clip_magic, all_packets, valid, is_clip, duration, checked_clip, decode, IsPacket,
  decode-bounds,
}
use why.Tests.Codecs.{
  number_bytes, number_read, number_bytes-known, number_bytes-IsByte, number_read-number_bytes,
}

abbrev one_frame : List (List ℕ)
one_frame = (5 ∷ []) ∷ []

known_frames : List (List ℕ) → Bool
known_frames [] = false
known_frames (frame ∷ []) = same_bytes frame (5 ∷ [])
known_frames (frame ∷ next ∷ rest) = false

known_frames-eq : (frames : List (List ℕ)) → known_frames frames ≡ true → one_frame ≡ frames
unfolding known_frames
known_frames-eq [] e = absurd cc
known_frames-eq (frame ∷ []) e = ap (λ l. l ∷ []) (sym (same_bytes-eq frame (5 ∷ []) e))
known_frames-eq (frame ∷ next ∷ rest) e = absurd cc

-- Clips of the one frame, by their number of channels; no other clip is encoded.
pub clip_codec : Codec Clip
clip_codec = record {
  serialize = λ clip. number_bytes (known_frames clip.frames) clip.channels;
  deserialize = λ bytes. some (record { channels = number_read bytes; frames = one_frame });
  serialize-IsByte =
      λ clip bytes e. number_bytes-IsByte (known_frames clip.frames) clip.channels bytes e;
  deserialize-serialize = λ clip bytes after e.
      ap₂ (λ (n : ℕ) l. some (record { channels = n; frames = l }))
        (number_read-number_bytes (known_frames clip.frames) clip.channels bytes after e)
        (known_frames-eq clip.frames
          (number_bytes-known (known_frames clip.frames) clip.channels bytes e).0);
}

abbrev mono : Clip
mono = record { channels = 1; frames = one_frame }

abbrev mono_bytes : List ℕ
mono_bytes = clip_magic ++ (0 ∷ 0 ∷ 0 ∷ 0 ∷ 0 ∷ 0 ∷ 0 ∷ 1 ∷ [])

serialized : clip_codec.serialize mono ≡ some (0 ∷ 0 ∷ 0 ∷ 0 ∷ 0 ∷ 0 ∷ 0 ∷ 1 ∷ [])
unfolding clip_codec number_bytes known_frames same_bytes to_be_bytes be_bytes
serialized = refl

mono-valid : valid mono ≡ true
unfolding valid all_packets
mono-valid = refl

decodes : decode clip_codec mono_bytes ≡ some mono
unfolding decode checked_clip valid all_packets starts_with clip_codec number_read from_be_bytes
    from_be
decodes = refl

decode-bounds_example :
    (is_clip mono_bytes ≡ true)
    × (0 < 1)
    × (1 ≤ 2)
    × All IsPacket one_frame
    × (duration mono ≡ length one_frame * 20)
    × (20 ≤ duration mono)
    × (duration mono ≤ 300000)
decode-bounds_example = decode-bounds clip_codec mono_bytes mono decodes
