-- ===== src/Chat/Clips.antt =====
-- chat/src/network/voice/message.rs: voice messages. The codec that writes and reads them is a parameter.
use why.Common.{
  ℕ, ◌*◌, ◌/◌, ◌%◌, ◌^◌, ◌≤◌, ◌<◌, ◌≡◌, inl, inr, refl, sym, ap, ◌∙◌, arith, Bool, true, ◌&&◌, ◌||◌,
  ltb, leb, ◌==◌, if◌then◌else◌, Bool-cases, Option, none, some, Option-cases, List, [], ◌∷◌, ◌++◌,
  length, drop, All, starts_with, starts_with-append,
}
use why.Core.Outcome.{Outcome, ok, ◌>>=◌}
use why.Chat.Crypto.{expect}
use why.Chat.Network.{Codec}

abbrev frame_ms : ℕ
frame_ms = 20

abbrev message_max_frames : ℕ
message_max_frames = 300 * 1000 / frame_ms

abbrev message_max_packet : ℕ
message_max_packet = 1275

-- `WHY2VOX\x01`
abbrev pub clip_magic : List ℕ
clip_magic = 87 ∷ 72 ∷ 89 ∷ 50 ∷ 86 ∷ 79 ∷ 88 ∷ 1 ∷ []

pub record Clip : Type 0 where
  pub channels : ℕ
  pub frames : List (List ℕ)

unfoldable pub all_packets : List (List ℕ) → Bool
all_packets [] = true
all_packets (frame ∷ frames) =
    (ltb 0 (length frame) && leb (length frame) message_max_packet) && all_packets frames

-- The check of `decode`.
unfoldable pub valid : Clip → Bool
valid clip =
    (clip.channels == 1 || clip.channels == 2)
    && ltb 0 (length clip.frames)
    && leb (length clip.frames) message_max_frames
    && all_packets clip.frames

unfoldable pub is_clip : List ℕ → Bool
is_clip header = starts_with header clip_magic

-- In a 32-bit integer.
unfoldable pub duration : Clip → ℕ
duration clip = length clip.frames % 2 ^ 32 * frame_ms % 2 ^ 32

module _ (codec : Codec Clip) where
  unfoldable pub encode : Clip → Outcome (List ℕ)
  encode clip = expect (codec.serialize clip) >>= λ bytes. ok (clip_magic ++ bytes)

  unfoldable pub checked_clip : Option Clip → Option Clip
  checked_clip none = none
  checked_clip (some clip) = if valid clip then some clip else none

  unfoldable pub decode : List ℕ → Option Clip
  decode bytes =
      if starts_with bytes clip_magic
      then checked_clip (codec.deserialize (drop (length clip_magic) bytes))
      else none

-- A frame that Opus can have written.
abbrev pub IsPacket : List ℕ → Type 0
IsPacket frame = (0 < length frame) × (length frame ≤ 1275)

all_packets-IsPacket : (frames : List (List ℕ)) → all_packets frames ≡ true → All IsPacket frames
unfolding all_packets
all_packets-IsPacket [] e = tt
all_packets-IsPacket (frame ∷ frames) e =
    ((ground arith, ground arith), all_packets-IsPacket frames (ground arith))

frame_count :
    (clip : Clip) → valid clip ≡ true → (1 ≤ length clip.frames) × (length clip.frames ≤ 15000)
unfolding valid
frame_count clip good = (ground arith, ground arith)

module _ (codec : Codec Clip) where
  -- A clip within the bounds that its codec can write is encoded, and whatever follows it on the wire,
  -- it is decoded to itself; the file is recognised as a clip by its first bytes.
  pub decode-encode :
      (clip : Clip) (written after : List ℕ)
      → codec.serialize clip ≡ some written
      → valid clip ≡ true
      → (bytes : List ℕ) × (encode codec clip ≡ ok bytes)
        × (decode codec (bytes ++ after) ≡ some clip)
        × (is_clip bytes ≡ true)
  unfolding encode decode checked_clip is_clip expect
  decode-encode clip written after s v = (
    clip_magic ++ written,
    rw s refl,
    rw
        (
          starts_with-append clip_magic (written ++ after),
          codec.deserialize-serialize clip written after s,
          v,
        )
        refl,
    starts_with-append clip_magic written,
  )

  decode-cases :
      (bytes : List ℕ) (clip : Clip)
      → decode codec bytes ≡ some clip
      → (is_clip bytes ≡ true) × (valid clip ≡ true)
  unfolding decode is_clip checked_clip
  decode-cases bytes clip e = elim (Bool-cases (starts_with bytes clip_magic)) [
    | inr other ↦ let gone : decode codec bytes ≡ none = rw other refl in absurd cc
    | inl marked ↦ elim (Option-cases (codec.deserialize (drop (length clip_magic) bytes))) [
      | inl failed ↦ let gone : decode codec bytes ≡ none = rw (marked, failed) refl in absurd cc
      | inr (found, read) ↦ elim (Bool-cases (valid found)) [
        | inr bad ↦ let gone : decode codec bytes ≡ none = rw (marked, read, bad) refl in absurd cc
        | inl good ↦
            let taken : decode codec bytes ≡ some found = rw (marked, read, good) refl in
            let this : found ≡ clip = cc in (marked, sym (ap valid this) ∙ good)
      ]
    ]
  ]

  -- What is decoded as a clip starts with the marker and has one or two channels; every frame is a
  -- packet of 1 to 1275 bytes, and the length is from 20 milliseconds to 5 minutes, so that its 32-bit
  -- computation does not wrap.
  pub decode-bounds :
      (bytes : List ℕ) (clip : Clip)
      → decode codec bytes ≡ some clip
      → (is_clip bytes ≡ true)
        × (0 < clip.channels)
        × (clip.channels ≤ 2)
        × All IsPacket clip.frames
        × (duration clip ≡ length clip.frames * 20)
        × (20 ≤ duration clip)
        × (duration clip ≤ 300000)
  unfolding valid duration
  decode-bounds bytes clip e =
      let (marked, good) = decode-cases bytes clip e in
      let (fewest, most) = frame_count clip good in
      (
        marked,
        ground arith,
        ground arith,
        all_packets-IsPacket clip.frames (ground arith),
        omega (arith, fewest, most),
        omega (arith, fewest, most),
        omega (arith, fewest, most),
      )
