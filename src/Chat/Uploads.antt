-- ===== src/Chat/Uploads.antt =====
-- chat/src/network/file/server.rs: an upload that the server keeps under its hash (a picture or a voice
-- message), from the first chunk to the file, and the file read back. The chunks are those that carry the
-- upload's own id. Files are written without errors.
pub mod Chunks
pub mod Stored
use why.Common.{
  ℕ, zero, suc, ◌+◌, ◌-◌, ◌*◌, ◌/◌, ◌≡◌, Bool, true, false, ◌&&◌, not, ltb, leb, ◌==◌,
  if◌then◌else◌, Option, none, some, List, [], ◌∷◌, ◌++◌, length, concat, wrapping_add,
}
use why.Core.Outcome.{Outcome, ok, ◌>>=◌}
use why.Core.Consts.{default_grid_width, default_grid_height}
use why.Core.Grid.{chunks, from_key, from_flat}
use why.Core.Crypto.{Primitives}
use why.Core.Auth.{Mac, same_bytes}
use why.Core.Stream.{RexStream, start}
use why.Chat.Crypto.{Hkdf, expect_ok, attempt, pass}
use why.Chat.Crypto.Disk.{DiskKeys, image_keys, disk_tag, disk_open}
use why.Chat.Network.{Codec}
use why.Chat.Misc.{is_image, is_avatar}
use why.Chat.Clips.{Clip, is_clip, decode}
use why.Chat.Files.{UploadKind, file, image, avatar, icon, voice, persistent}

abbrev megabyte : ℕ
megabyte = 1000000

abbrev pub upload_chunk_size : ℕ
upload_chunk_size = megabyte

abbrev max_image_size : ℕ
max_image_size = 8 * megabyte

abbrev max_avatar_size : ℕ
max_avatar_size = 2 * megabyte

abbrev max_voice_message_size : ℕ
max_voice_message_size = 6 * megabyte

unfoldable pub ceiling : UploadKind → ℕ
ceiling file = max_image_size
ceiling image = max_image_size
ceiling avatar = max_avatar_size
ceiling icon = max_avatar_size
ceiling voice = max_voice_message_size

-- Whether an upload of this size is taken.
unfoldable pub admitted : UploadKind → ℕ → ℕ → Bool
admitted kind size max_upload_size =
    not (persistent kind && ltb (ceiling kind) size) && leb (size / megabyte) max_upload_size

-- The checks of the first chunk.
unfoldable pub first_valid : UploadKind → List ℕ → Bool
first_valid file bytes = true
first_valid image bytes = is_image bytes
first_valid avatar bytes = is_image bytes && is_avatar bytes
first_valid icon bytes = is_image bytes && is_avatar bytes
first_valid voice bytes = is_clip bytes

-- The hasher and the tag hold what was fed to them; the tag with its key.
pub record ActiveFileshare : Type 0 where
  pub file : List ℕ
  pub size : ℕ
  pub current_size : ℕ
  pub hash : List ℕ
  pub hasher : List ℕ
  pub client_id : ℕ
  pub image : Option (List ℕ)
  pub stream : RexStream
  pub mac : Option (List ℕ × List ℕ)

-- What a chunk does: it is passed over, it ends the transfer, or the upload goes on or is complete.
pub data ChunkEnd : Type 0 where
  skipped : ChunkEnd
  over_size : ChunkEnd
  running : ActiveFileshare → ChunkEnd
  complete : ActiveFileshare → ChunkEnd

unfoldable pub fed_mac : List ℕ → Option (List ℕ × List ℕ) → Option (List ℕ × List ℕ)
fed_mac bytes none = none
fed_mac bytes (some (mac_key, fed)) = some (mac_key, fed ++ bytes)

unfoldable pub kept_image : List ℕ → Option (List ℕ) → Option (List ℕ)
kept_image bytes none = none
kept_image bytes (some buffer) = some (buffer ++ bytes)

unfoldable pub chunk_written : ActiveFileshare → RexStream → List ℕ → List ℕ → ActiveFileshare
chunk_written active stream bytes encrypted_bytes = record {
  file = active.file ++ encrypted_bytes;
  size = active.size;
  current_size = wrapping_add active.current_size (length bytes);
  hash = active.hash;
  hasher = active.hasher ++ bytes;
  client_id = active.client_id;
  image = kept_image bytes active.image;
  stream = stream;
  mac = fed_mac encrypted_bytes active.mac;
}

unfoldable pub chunk_end : ActiveFileshare → ChunkEnd
chunk_end active =
    if ltb active.size active.current_size
    then over_size
    else if active.current_size == active.size
    then complete active
    else running active

-- How an upload ends: with a file, without one, or with the end of the packets.
pub data UploadEnd : Type 0 where
  stored : List ℕ → UploadEnd
  rejected : UploadEnd
  unfinished : ActiveFileshare → UploadEnd

module _ (m : Mac) where
  -- The file with its tag, where it has one.
  unfoldable pub file_with_tag : ActiveFileshare → Option (List ℕ × List ℕ) → List ℕ
  file_with_tag active none = active.file
  file_with_tag active (some (mac_key, fed)) =
      active.file ++ disk_tag m mac_key fed active.current_size

module _ (prims : Primitives) (m : Mac) (avx2 : Bool) where
  unfoldable pub take_chunk : ℕ → List ℕ → ActiveFileshare → Outcome ChunkEnd
  take_chunk id bytes active =
      let encrypted =
        expect_ok (pass avx2 default_grid_width default_grid_height active.stream bytes) in
      if active.client_id == id && leb (length bytes) upload_chunk_size
      then (encrypted >>= λ done. ok (chunk_end (chunk_written active done.0 bytes done.1)))
      else ok skipped

  -- The loop of `read_image`, chunk for chunk.
  unfoldable pub read_chunks : RexStream → List (List ℕ) → Outcome (Option (List ℕ))
  read_chunks disk_stream [] = ok (some [])
  read_chunks disk_stream (bytes ∷ rest) =
      attempt (pass avx2 default_grid_width default_grid_height disk_stream bytes) (λ done.
        attempt (read_chunks done.0 rest)
          (λ read. ok (elim read [ none ↦ none | some later ↦ some (done.1 ++ later) ])))

  unfoldable pub disk_stream_of :
      DiskKeys → (RexStream → Outcome (Option (List ℕ))) → Outcome (Option (List ℕ))
  disk_stream_of (key, nonce, mac_key) use_stream =
      attempt (from_key default_grid_width default_grid_height key) (λ key_grid.
        attempt (from_flat default_grid_width default_grid_height nonce) (λ nonce_grid.
          attempt (start prims default_grid_width default_grid_height key_grid nonce_grid)
            use_stream))

  unfoldable pub read_opened : DiskKeys → Option (List ℕ) → Outcome (Option (List ℕ))
  read_opened keys none = ok none
  read_opened keys (some ciphertext) = disk_stream_of keys (λ disk_stream. read_chunks disk_stream (
      chunks ((length ciphertext + upload_chunk_size - 1) / upload_chunk_size) upload_chunk_size
        ciphertext))

unfoldable pub decoded_image : Codec Clip → Option (List ℕ) → Option Clip
decoded_image codec none = none
decoded_image codec (some bytes) = decode codec bytes

-- A voice message has to be a clip.
unfoldable pub parsed : Codec Clip → UploadKind → Option (List ℕ) → Bool
parsed codec file buffer = true
parsed codec image buffer = true
parsed codec avatar buffer = true
parsed codec icon buffer = true
parsed codec voice buffer = elim (decoded_image codec buffer) [ none ↦ false | some clip ↦ true ]

module _ (prims : Primitives) (m : Mac) (codec : Codec Clip) (avx2 : Bool) (kind : UploadKind) where
  -- A complete upload is kept where its hash is the announced one.
  unfoldable pub finish : ActiveFileshare → UploadEnd
  finish active =
      if same_bytes active.hash (prims.sha256 active.hasher) && parsed codec kind active.image
      then stored (file_with_tag m active active.mac)
      else rejected

  -- The loop over the chunks, after the checks of the first one.
  unfoldable pub receive_chunks : ℕ → ActiveFileshare → List (List ℕ) → Outcome UploadEnd
  receive_chunks id active [] = ok (unfinished active)
  receive_chunks id active (bytes ∷ rest) = take_chunk prims m avx2 id bytes active >>= λ e.
      elim e [
        | skipped ↦ receive_chunks id active rest
        | over_size ↦ ok rejected
        | running next ↦ receive_chunks id next rest
        | complete final ↦ ok (finish final)
      ]

  unfoldable pub receive_upload : ℕ → ActiveFileshare → List (List ℕ) → Outcome UploadEnd
  receive_upload id active [] = ok (unfinished active)
  receive_upload id active (bytes ∷ rest) =
      if first_valid kind bytes then receive_chunks id active (bytes ∷ rest) else ok rejected

module _ (prims : Primitives) (m : Mac) (kdf : Hkdf) (avx2 : Bool) (image_key : List ℕ) where
  -- The state of a persistent upload before its first chunk.
  unfoldable pub new_upload : ℕ → List ℕ → ℕ → Outcome ActiveFileshare
  new_upload id hash size = do
    keys ← image_keys kdf image_key hash
    key_grid ← expect_ok (from_key default_grid_width default_grid_height keys.0)
    nonce_grid ← expect_ok (from_flat default_grid_width default_grid_height keys.1)
    disk_stream ← expect_ok (start prims default_grid_width default_grid_height key_grid nonce_grid)
    ok (record {
      file = [];
      size = size;
      current_size = 0;
      hash = hash;
      hasher = [];
      client_id = id;
      image = some [];
      stream = disk_stream;
      mac = some (keys.2, []);
    })

  unfoldable pub read_image : List ℕ → List ℕ → Outcome (Option (List ℕ))
  read_image hash sealed = image_keys kdf image_key hash >>= λ keys.
      read_opened prims m avx2 keys (disk_open m keys.2 sealed)
