-- ===== src/Chat/Crypto/Frames.antt =====
-- chat/src/crypto/mod.rs: one sealed packet, and what `open` accepts.
use why.Common.{
  ℕ, ◌+◌, ◌*◌, ◌≡◌, ◌⊎◌, inl, inr, refl, sym, ap, ◌∙◌, arith, Bool, true, false, ltb, Bool-cases,
  none, some, List, [], ◌++◌, length, take, drop, All, IsByte, length-append, take-append,
  drop-append, take-append-drop, wrapping_add,
}
use why.Core.Outcome.{ok, ◌>>=◌}
use why.Core.Grid.{Grid, IsGrid, valid_dimensions}
use why.Core.Crypto.Keystream.{IsSchedule}
use why.Core.Auth.{Mac, same_bytes}
use why.Core.Auth.Packets.{same_bytes_refl, same_bytes-eq}
use why.Core.Stream.Positions.{key_at}
use why.Core.Stream.Updates.{at}
use why.Chat.Crypto.{RexPacketStream, expect_ok, advanced, packet_mac, pass, seal, open_sealed}
use why.Chat.Crypto.Pass.{
  grids_of, pass_lem, mask_bytes, mask_bytes-IsByte, mask_bytes_twice, length-mask_bytes,
}

-- The bytes of a packet whose ciphertext is `ciphertext`, at the state's counter.
unfoldable pub frame : Mac → RexPacketStream → List ℕ → List ℕ
frame m s ciphertext = packet_mac m s ciphertext ++ ciphertext

module _ (m : Mac) where
  length-packet_mac :
      (s : RexPacketStream) (ciphertext : List ℕ) → length (packet_mac m s ciphertext) ≡ 32
  unfolding packet_mac
  length-packet_mac s ciphertext = m.length-hmac s.mac_key _

  pub length-frame :
      (s : RexPacketStream) (ciphertext : List ℕ)
      → length (frame m s ciphertext) ≡ length ciphertext + 32
  unfolding frame
  length-frame s ciphertext =
      omega (
        arith,
        length-append (packet_mac m s ciphertext) ciphertext,
        length-packet_mac s ciphertext,
      )

  -- A packet is refused and the state is left as it was, unless its bytes are a ciphertext after its
  -- own tag at the state's counter. Then they are the ciphertext that goes through the stream.
  pub open_sealed-cases :
      (avx2 : Bool) (w h : ℕ) (s : RexPacketStream) (bytes : List ℕ)
      → (open_sealed m avx2 w h s bytes ≡ ok (s, none))
        ⊎ ((ciphertext : List ℕ) × (bytes ≡ packet_mac m s ciphertext ++ ciphertext)
            × (open_sealed m avx2 w h s bytes ≡ (
                pass avx2 w h s.stream ciphertext >>= λ done. ok (advanced s done.0, some done.1))))
  unfolding open_sealed
  open_sealed-cases avx2 w h s bytes = elim (Bool-cases (ltb (length bytes) 32)) [
    | inl short ↦ inl (rw short refl)
    | inr long ↦ elim (Bool-cases (same_bytes (packet_mac m s (drop 32 bytes)) (take 32 bytes))) [
      | inl same ↦ inr (
        drop 32 bytes,
        sym (take-append-drop 32 bytes)
            ∙ ap (λ l. l ++ drop 32 bytes)
                (sym (same_bytes-eq (packet_mac m s (drop 32 bytes)) (take 32 bytes) same)),
        rw (long, same) refl,
      )
      | inr other ↦ inl (rw (long, other) refl)
    ]
  ]

  open_sealed-frame :
      (avx2 : Bool) (w h : ℕ) (s : RexPacketStream) (ciphertext : List ℕ)
      → open_sealed m avx2 w h s (frame m s ciphertext)
        ≡ (pass avx2 w h s.stream ciphertext >>= λ done. ok (advanced s done.0, some done.1))
  unfolding open_sealed frame
  open_sealed-frame avx2 w h s ciphertext =
      let tag = packet_mac m s ciphertext in
      let size = length-packet_mac s ciphertext in
      let long : ltb (length (tag ++ ciphertext)) 32 ≡ false =
        ground (arith, length-append tag ciphertext, size) in
      rw
        (
          long,
          take-append 32 tag ciphertext size,
          drop-append 32 tag ciphertext size,
          same_bytes_refl tag,
        )
        refl

module _ (m : Mac) (avx2 : Bool) (w h : ℕ) (valid : valid_dimensions w h ≡ true) (nonce : Grid)
    (keys : List Grid) (shifts : List (List ℕ)) (s : IsSchedule w h keys shifts)
    (vn : IsGrid w h nonce) where
  -- An end of a stream that has sent or received `counter` packets, in `number` grids.
  unfoldable pub end_at : List ℕ → ℕ → ℕ → RexPacketStream
  end_at mac_key number counter = record {
    stream = at avx2 w h valid nonce keys shifts s vn number [];
    mac_key = mac_key;
    counter = counter;
  }

  abbrev after : List ℕ → ℕ → ℕ → ℕ → RexPacketStream
  after mac_key number counter n = end_at mac_key (number + grids_of w h n) (wrapping_add counter 1)

  abbrev masked_bytes : ℕ → List ℕ → List ℕ
  masked_bytes number bytes =
      mask_bytes (key_at avx2 w h valid nonce keys shifts s vn) (number * (w * h)) bytes

  pub seal_lem :
      (mac_key : List ℕ) (number counter : ℕ) (bytes : List ℕ)
      → All IsByte bytes
      → seal m avx2 w h (end_at mac_key number counter) bytes
        ≡ ok (
          after mac_key number counter (length bytes),
          frame m (end_at mac_key number counter) (masked_bytes number bytes),
        )
  unfolding seal end_at frame advanced expect_ok
  seal_lem mac_key number counter bytes v =
      rw (pass_lem avx2 w h valid nonce keys shifts s vn number bytes v) refl

  pub open_lem :
      (mac_key : List ℕ) (number counter : ℕ) (bytes : List ℕ)
      → All IsByte bytes
      → open_sealed m avx2 w h
          (end_at mac_key number counter)
          (frame m (end_at mac_key number counter) (masked_bytes number bytes))
        ≡ ok (after mac_key number counter (length bytes), some bytes)
  unfolding end_at advanced
  open_lem mac_key number counter bytes v =
      let key = key_at avx2 w h valid nonce keys shifts s vn in
      let ciphertext = masked_bytes number bytes in
      open_sealed-frame m avx2 w h (end_at mac_key number counter) ciphertext
      ∙ rw
          (
            pass_lem avx2 w h valid nonce keys shifts s vn number ciphertext
                (mask_bytes-IsByte key (number * (w * h)) bytes v),
            mask_bytes_twice key (number * (w * h)) bytes,
            length-mask_bytes key (number * (w * h)) bytes,
          )
          refl
