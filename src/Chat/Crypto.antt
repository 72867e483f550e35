-- ===== src/Chat/Crypto.antt =====
-- chat/src/crypto/mod.rs: packets under the session keys, authenticated packet streams, and the keys
-- and tags of files. HKDF-SHA256 is not part of the repository: it is the operation of `Hkdf`, which
-- fails beyond 255 blocks of 32 bytes only. The system generator's seeds and the master keys are
-- arguments.
pub mod Bytes
pub mod Pass
pub mod Frames
pub mod Session
pub mod Packets
pub mod Disk
use why.Common.{
  ℕ, zero, suc, ◌+◌, ◌-◌, ◌*◌, ◌/◌, ◌%◌, ◌≤◌, ◌≡◌, Bool, ◌==◌, ltb, if◌then◌else◌, Option, none,
  some, List, [], ◌∷◌, ◌++◌, map, length, take, drop, replicate, All, IsByte, wrapping_add,
  to_be_bytes, from_be_bytes,
}
use why.Core.Outcome.{Outcome, ok, err, panic, ◌>>=◌}
use why.Core.Consts.{default_grid_width, default_grid_height}
use why.Core.Grid.{Grid, chunks, from_key, from_flat}
use why.Core.Grid.Bytes.{words_bytes}
use why.Core.Crypto.{Primitives}
use why.Core.Types.{EncryptedData}
use why.Core.Encrypter.{encrypt}
use why.Core.Decrypter.{decrypt}
use why.Core.Stream.{RexStream, start, update, finalize}
use why.Core.Auth.{Mac, same_bytes, authenticate, open_packet, to_bytes, try_from}

-- `Hkdf::<Sha256>::new(salt, ikm)`, then `expand(info, okm)` with the length of `okm`.
pub record Hkdf : Type 0 where
  pub expand : Option (List ℕ) → List ℕ → List ℕ → ℕ → Option (List ℕ)
  pub expand-fills :
      (salt : Option (List ℕ)) (ikm info : List ℕ) (n : ℕ)
      → n ≤ 8160
      → (okm : List ℕ) × (expand salt ikm info n ≡ some okm) × (length okm ≡ n) × All IsByte okm

-- The session keys: the grid's key and the key of the tags.
abbrev pub SharedKeys : Type 0
SharedKeys = List ℕ × List ℕ

-- `expect` on an `Option` and on a `Result`.
unfoldable pub expect : {A : Type 0} → Option A → Outcome A
expect none = panic
expect (some a) = ok a

unfoldable pub expect_ok : {A : Type 0} → Outcome A → Outcome A
expect_ok (ok a) = ok a
expect_ok (err e) = panic
expect_ok panic = panic

-- `.ok()?` in a function that returns an `Option`.
unfoldable pub attempt : {A B : Type 0} → Outcome A → (A → Outcome (Option B)) → Outcome (Option B)
attempt (ok a) f = f a
attempt (err e) f = ok none
attempt panic f = panic

-- A chunk in a buffer of eight zeros.
unfoldable pub padded : List ℕ → List ℕ
padded chunk = chunk ++ replicate (8 - length chunk) 0

unfoldable pub bytes_to_i64 : List ℕ → List ℕ
bytes_to_i64 bytes =
    map (λ chunk. from_be_bytes (padded chunk)) (chunks ((length bytes + 7) / 8) 8 bytes)

unfoldable pub i64_to_bytes : List ℕ → List ℕ
i64_to_bytes vals = words_bytes vals

-- `chunks_exact(8).map(i64::from_be_bytes)`
unfoldable pub exact_cells : List ℕ → List ℕ
exact_cells bytes = map from_be_bytes (chunks (length bytes / 8) 8 bytes)

-- The decimal digits of a number, with its size as fuel.
decimal_from : ℕ → ℕ → List ℕ
decimal_from zero n = (48 + n % 10) ∷ []
decimal_from (suc fuel) n =
    let rest = decimal_from fuel (n / 10) in
    if ltb n 10 then (48 + n) ∷ [] else rest ++ (48 + n % 10) ∷ []

decimal : ℕ → List ℕ
decimal n = decimal_from n n

-- `WHY2-DERIVED-KEY-{W}x{H}`
pub derived_label : ℕ → ℕ → List ℕ
derived_label w h =
    (87 ∷ 72 ∷ 89 ∷ 50 ∷ 45 ∷ 68 ∷ 69 ∷ 82 ∷ 73 ∷ 86 ∷ 69 ∷ 68 ∷ 45 ∷ 75 ∷ 69 ∷ 89 ∷ 45 ∷ [])
    ++ (decimal w ++ 120 ∷ decimal h)

-- `WHY2-STREAM-NONCE`
abbrev pub stream_nonce_label : List ℕ
stream_nonce_label =
    87 ∷ 72 ∷ 89 ∷ 50 ∷ 45 ∷ 83 ∷ 84 ∷ 82 ∷ 69 ∷ 65 ∷ 77 ∷ 45 ∷ 78 ∷ 79 ∷ 78 ∷ 67 ∷ 69 ∷ []

-- `WHY2-STREAM-MAC`
abbrev pub stream_mac_label : List ℕ
stream_mac_label = 87 ∷ 72 ∷ 89 ∷ 50 ∷ 45 ∷ 83 ∷ 84 ∷ 82 ∷ 69 ∷ 65 ∷ 77 ∷ 45 ∷ 77 ∷ 65 ∷ 67 ∷ []

-- `WHY2-REVERSE-STREAM`
abbrev reverse_label : List ℕ
reverse_label =
    87 ∷ 72 ∷ 89 ∷ 50 ∷ 45 ∷ 82 ∷ 69 ∷ 86 ∷ 69 ∷ 82 ∷ 83 ∷ 69 ∷ 45 ∷ 83 ∷ 84 ∷ 82 ∷ 69 ∷ 65 ∷ 77
    ∷ []

module _ (kdf : Hkdf) where
  unfoldable pub get_correct_key : ℕ → ℕ → List ℕ → Outcome (List ℕ)
  get_correct_key w h key = do
    okm ← expect (kdf.expand none (words_bytes key) (derived_label w h) (w * h * 2 * 8))
    ok (exact_cells okm)

  -- The key of a packet: the session's, or the one derived from it.
  unfoldable pub packet_key : ℕ → ℕ → SharedKeys → Outcome (List ℕ)
  packet_key w h keys =
      let derived = get_correct_key w h keys.0 in
      if length keys.0 == w * h * 2 then ok keys.0 else derived

  unfoldable pub derive_stream_nonce : List ℕ → Outcome (List ℕ)
  derive_stream_nonce context = do
    okm ←
        expect (
          kdf.expand none context stream_nonce_label (default_grid_width * default_grid_height * 8))
    ok (exact_cells okm)

  unfoldable pub derive_stream_mac_key : List ℕ → List ℕ → Outcome (List ℕ)
  derive_stream_mac_key hmac_key context =
      expect (kdf.expand (some context) hmac_key stream_mac_label 32)

module _ (prims : Primitives) (m : Mac) (kdf : Hkdf) (avx2 : Bool) (w h : ℕ) where
  unfoldable pub encrypt_packet :
      Option (List ℕ) → Option (List ℕ) → List ℕ → SharedKeys → Outcome (List ℕ)
  encrypt_packet key_seed nonce_seed packet_bytes keys = do
    key ← packet_key kdf w h keys
    encrypted_data ←
        expect_ok
          (encrypt prims avx2 w h key_seed nonce_seed (bytes_to_i64 packet_bytes) (some key))
    if length keys.1 == 32 then ok (to_bytes (authenticate m encrypted_data keys.1)) else panic

  unfoldable pub decrypt_opened : Option EncryptedData → Outcome (Option (List ℕ))
  decrypt_opened none = ok none
  decrypt_opened (some encrypted_data) =
      attempt (decrypt prims avx2 w h encrypted_data)
        (λ decrypted. ok (some (i64_to_bytes decrypted.output)))

  -- `ok none` is the code's `None`.
  unfoldable pub decrypt_packet : List ℕ → SharedKeys → Outcome (Option (List ℕ))
  decrypt_packet decoded_packet keys = attempt (try_from w h decoded_packet) (λ auth_packet.
      packet_key kdf w h keys >>= λ key. attempt (from_key w h key) (λ key_grid.
        if length keys.1 == 32
        then decrypt_opened (open_packet m auth_packet keys.1 key_grid)
        else ok none))

-- An authenticated stream.
pub record RexPacketStream : Type 0 where
  pub stream : RexStream
  pub mac_key : List ℕ
  pub counter : ℕ

-- The tag of a ciphertext at the current counter.
unfoldable pub packet_mac : Mac → RexPacketStream → List ℕ → List ℕ
packet_mac m s ciphertext =
    m.hmac s.mac_key (to_be_bytes s.counter ++ to_be_bytes (length ciphertext) ++ ciphertext)

-- The state after a packet.
unfoldable pub advanced : RexPacketStream → RexStream → RexPacketStream
advanced s stream = record {
  stream = stream;
  mac_key = s.mac_key;
  counter = wrapping_add s.counter 1;
}

module _ (avx2 : Bool) (w h : ℕ) where
  -- What `seal` and `open` do to the bytes: into cells, through the stream, back into bytes, and
  -- without what was padded.
  unfoldable pub pass : RexStream → List ℕ → Outcome (RexStream × List ℕ)
  pass stream bytes = do
    first ← update avx2 w h stream (bytes_to_i64 bytes)
    last ← finalize avx2 w h first.0
    ok (last.0, take (length bytes) (i64_to_bytes (first.1 ++ last.1)))

module _ (m : Mac) (avx2 : Bool) (w h : ℕ) where
  unfoldable pub seal : RexPacketStream → List ℕ → Outcome (RexPacketStream × List ℕ)
  seal s plaintext = do
    passed ← expect_ok (pass avx2 w h s.stream plaintext)
    ok (advanced s passed.0, packet_mac m s passed.1 ++ passed.1)

  -- `open`. `ok (s, none)` is a refusal, and an error is the `None` of a stream that fails.
  unfoldable pub open_sealed :
      RexPacketStream → List ℕ → Outcome (RexPacketStream × Option (List ℕ))
  open_sealed s bytes =
      let ciphertext = drop 32 bytes in
      let passed = pass avx2 w h s.stream ciphertext in
      if ltb (length bytes) 32
      then ok (s, none)
      else if same_bytes (packet_mac m s ciphertext) (take 32 bytes)
      then (passed >>= λ done. ok (advanced s done.0, some done.1))
      else ok (s, none)

module _ (prims : Primitives) (kdf : Hkdf) where
  unfoldable pub init_rex_stream : SharedKeys → List ℕ → Outcome (Option RexPacketStream)
  init_rex_stream keys token =
      attempt (from_key default_grid_width default_grid_height keys.0) (λ key_grid.
        derive_stream_nonce kdf token >>= λ derived.
        attempt (from_flat default_grid_width default_grid_height derived) (λ nonce_grid.
          attempt (start prims default_grid_width default_grid_height key_grid nonce_grid)
            (λ stream. derive_stream_mac_key kdf keys.1 token >>= λ mac_key.
              ok (some (record { stream = stream; mac_key = mac_key; counter = 0 })))))

  unfoldable pub init_reverse_stream : SharedKeys → List ℕ → Outcome (Option RexPacketStream)
  init_reverse_stream keys token = init_rex_stream keys (prims.sha256 (reverse_label ++ token))
