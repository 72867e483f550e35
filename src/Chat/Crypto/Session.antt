-- ===== src/Chat/Crypto/Session.antt =====
-- chat/src/crypto/mod.rs: an auxiliary socket, from the keys and the token to the last packet.
use why.Common.{
  ℕ, ◌+◌, ◌*◌, ◌≡◌, refl, arith, Bool, true, Option, none, some, List, [], ◌∷◌, map, length, All,
  IsByte, IsWord, wrapping_add,
}
use why.Core.Outcome.{Outcome, ok, ◌>>=◌}
use why.Core.Consts.{default_grid_width, default_grid_height}
use why.Core.Grid.{Grid, IsGrid, valid_dimensions}
use why.Core.Grid.Keys.{from_key_lem}
use why.Core.Grid.Build.{from_flat_lem}
use why.Core.Crypto.{Primitives}
use why.Core.Crypto.Keystream.{IsSchedule}
use why.Core.Auth.{Mac}
use why.Core.Stream.Positions.{key_at}
use why.Core.Stream.Sessions.{start_lem}
use why.Chat.Crypto.{
  Hkdf, SharedKeys, RexPacketStream, expect, attempt, exact_cells, derive_stream_nonce,
  derive_stream_mac_key, stream_nonce_label, stream_mac_label, seal, open_sealed, init_rex_stream,
}
use why.Chat.Crypto.Bytes.{exact_cells_lem}
use why.Chat.Crypto.Pass.{grids_of, mask_bytes}
use why.Chat.Crypto.Frames.{frame, end_at, seal_lem, open_lem}

module _ (m : Mac) (avx2 : Bool) (w h : ℕ) where
  -- The packets of one direction, sealed in order.
  unfoldable pub seal_all :
      RexPacketStream → List (List ℕ) → Outcome (RexPacketStream × List (List ℕ))
  seal_all s [] = ok (s, [])
  seal_all s (packet ∷ packets) =
      seal m avx2 w h s packet >>= λ a. seal_all a.0 packets >>= λ b. ok (b.0, a.1 ∷ b.1)

  -- What arrives, opened in order.
  unfoldable pub open_all :
      RexPacketStream → List (List ℕ) → Outcome (RexPacketStream × List (Option (List ℕ)))
  open_all s [] = ok (s, [])
  open_all s (bytes ∷ frames) =
      open_sealed m avx2 w h s bytes >>= λ a. open_all a.0 frames >>= λ b. ok (b.0, a.1 ∷ b.1)

module _ (m : Mac) (avx2 : Bool) (w h : ℕ) (valid : valid_dimensions w h ≡ true) (nonce : Grid)
    (keys : List Grid) (shifts : List (List ℕ)) (s : IsSchedule w h keys shifts)
    (vn : IsGrid w h nonce) where
  open_all-seal_all_at :
      (mac_key : List ℕ) (packets : List (List ℕ)) (number counter : ℕ)
      → All (All IsByte) packets
      → let here = end_at m avx2 w h valid nonce keys shifts s vn mac_key number counter in
        (last : RexPacketStream) × (frames : List (List ℕ)) × (seal_all m avx2 w h here packets
          ≡ ok (last, frames))
        × (open_all m avx2 w h here frames ≡ ok (last, map some packets))
  unfolding seal_all open_all
  open_all-seal_all_at mac_key [] number counter v =
      (end_at m avx2 w h valid nonce keys shifts s vn mac_key number counter, [], refl, refl)
  open_all-seal_all_at mac_key (packet ∷ packets) number counter v =
      let (last, frames, sealed, opened) =
        open_all-seal_all_at mac_key packets (number + grids_of w h (length packet))
          (wrapping_add counter 1) v.1 in
      let one =
        seal_lem m avx2 w h valid nonce keys shifts s vn mac_key number counter packet v.0 in
      let back =
        open_lem m avx2 w h valid nonce keys shifts s vn mac_key number counter packet v.0 in
      let first =
        frame m (end_at m avx2 w h valid nonce keys shifts s vn mac_key number counter)
          (mask_bytes (key_at avx2 w h valid nonce keys shifts s vn) (number * (w * h)) packet) in
      (last, first ∷ frames, rw (one, sealed) refl, rw (back, opened) refl)

module _ (prims : Primitives) (m : Mac) (kdf : Hkdf) (avx2 : Bool) where
  -- With a grid key of 128 words, every token opens a stream, at the beginning of a keystream.
  pub init_rex_stream_lem :
      (keys : SharedKeys) (token : List ℕ)
      → length keys.0 ≡ 128
      → All IsWord keys.0
      → (nonce : Grid) × (round_keys : List Grid) × (shifts : List (List ℕ)) × (s : IsSchedule
          default_grid_width default_grid_height round_keys shifts)
        × (vn : IsGrid default_grid_width default_grid_height nonce) × (mac_key : List ℕ)
        × (init_rex_stream prims kdf keys token
            ≡ ok (
                some (
                  end_at m avx2 default_grid_width default_grid_height refl nonce round_keys shifts
                    s vn mac_key 0 0)))
  unfolding init_rex_stream derive_stream_nonce derive_stream_mac_key expect attempt end_at
  init_rex_stream_lem keys token size words =
      let (key_grid, made, vk, cells) =
        from_key_lem default_grid_width default_grid_height keys.0 refl (omega arith) size words in
      let (okm, expanded, long, bytes) =
        kdf.expand-fills none token stream_nonce_label 512 (omega arith) in
      let derived = exact_cells_lem 64 okm bytes long in
      let (nonce, drawn, vn, flat) =
        from_flat_lem default_grid_width default_grid_height refl (exact_cells okm) derived.1 in
      let (round_keys, shifts, s, started) =
        start_lem avx2 default_grid_width default_grid_height refl prims key_grid nonce
          (omega arith) vn in
      let (mac_key, expanded', long', bytes') =
        kdf.expand-fills (some token) keys.1 stream_mac_label 32 (omega arith) in
      (
        nonce,
        round_keys,
        shifts,
        s,
        vn,
        mac_key,
        rw (made, expanded, drawn, started, expanded') refl,
      )

  -- For a grid key of 128 words, both ends of an auxiliary socket begin in the same state, whatever the
  -- token and the key of the tags. All packets of bytes that one end seals in order are opened by the
  -- other one to the same bytes, no call fails or panics, and both ends are in the same state again.
  pub open_all-seal_all :
      (keys : SharedKeys) (token : List ℕ) (packets : List (List ℕ))
      → length keys.0 ≡ 128
      → All IsWord keys.0
      → All (All IsByte) packets
      → (begin last : RexPacketStream) × (frames : List (List ℕ)) × (init_rex_stream prims kdf keys
            token
          ≡ ok (some begin))
        × (seal_all m avx2 default_grid_width default_grid_height begin packets ≡ ok (last, frames))
        × (open_all m avx2 default_grid_width default_grid_height begin frames
            ≡ ok (last, map some packets))
  open_all-seal_all keys token packets size words v =
      let (nonce, round_keys, shifts, s, vn, mac_key, begun) =
        init_rex_stream_lem keys token size words in
      let (last, frames, sealed, opened) =
        open_all-seal_all_at m avx2 default_grid_width default_grid_height refl nonce round_keys
          shifts s vn mac_key packets 0 0 v in
      (
        end_at m avx2 default_grid_width default_grid_height refl nonce round_keys shifts s vn
            mac_key 0 0,
        last,
        frames,
        begun,
        sealed,
        opened,
      )
