-- ===== src/Chat/Crypto/Packets.antt =====
-- chat/src/crypto/mod.rs: one packet on the main connection.
use why.Common.{
  ℕ, zero, suc, ◌+◌, ◌-◌, ◌*◌, ◌/◌, ◌≤◌, ◌<◌, ◌≡◌, inl, inr, refl, ap, ap₂, ◌∙◌, arith, Bool, true,
  ◌==◌, ==_iff, Bool-cases, Option, none, some, List, ◌∷◌, ◌++◌, length, replicate, All, IsByte,
  IsWord, to_be_bytes-zero, append_assoc,
}
use why.Core.Outcome.{ok, >>=-succeeds, ok-injective}
use why.Core.Grid.{valid_dimensions, from_key}
use why.Core.Grid.Bytes.{words_bytes, words_bytes-append}
use why.Core.Crypto.{Primitives, generate_round_keys, generate_nonce, apply_ctr}
use why.Core.Types.{EncryptedData}
use why.Core.Encrypter.{shape_grids, used_key, encrypt}
use why.Core.Auth.{Mac, to_bytes, authenticate}
use why.Core.Auth.Packets.{decrypt-open_packet}
use why.Chat.Crypto.{
  Hkdf, SharedKeys, expect, expect_ok, attempt, bytes_to_i64, i64_to_bytes, exact_cells,
  derived_label, get_correct_key, packet_key, encrypt_packet, decrypt_opened, decrypt_packet,
}
use why.Chat.Crypto.Bytes.{
  exact_cells_lem, i64_to_bytes-bytes_to_i64, bytes_to_i64-words, length-bytes_to_i64,
}

-- What is encrypted holds the grid of the key that it was encrypted with.
encrypt-key :
    (prims : Primitives) (avx2 : Bool) (w h : ℕ) (key_seed nonce_seed : Option (List ℕ))
    (input key : List ℕ) (sealed : EncryptedData)
    → encrypt prims avx2 w h key_seed nonce_seed input (some key) ≡ ok sealed
    → from_key w h key ≡ ok sealed.key
unfolding encrypt used_key
encrypt-key prims avx2 w h key_seed nonce_seed input key sealed e =
    let (grids, e1, shaped) = >>=-succeeds _ (shape_grids w h input) e in
    let (key_grid, e2, made) = >>=-succeeds _ (from_key w h key) e1 in
    let (round_keys, e3, expanded) = >>=-succeeds _ (generate_round_keys prims w h key_grid) e2 in
    let (nonce, e4, drawn) = >>=-succeeds _ (generate_nonce prims w h nonce_seed) e3 in
    let (output, e5, ran) = >>=-succeeds _ (apply_ctr avx2 w h grids nonce round_keys none) e4 in
    made ∙ ap (λ (d : EncryptedData). ok d.key) (ok-injective e5)

replicate-append : (n k : ℕ) → ◌++◌ {A = ℕ} (replicate n 0) (replicate k 0) ≡ replicate (n + k) 0
replicate-append zero k = ap (λ (j : ℕ). replicate j 0) {x = k} {y = 0 + k} (omega arith)
replicate-append (suc n) k =
    ap (λ l. 0 ∷ l) (replicate-append n k)
    ∙ ap (λ (j : ℕ). replicate j 0) {x = suc (n + k)} {y = suc n + k} (omega arith)

words_bytes-zeros : (n : ℕ) → words_bytes (replicate n 0) ≡ replicate (n * 8) 0
unfolding words_bytes
words_bytes-zeros zero = refl
words_bytes-zeros (suc n) =
    ap₂ ◌++◌ to_be_bytes-zero (words_bytes-zeros n)
    ∙ replicate-append 8 (n * 8)
    ∙ ap (λ (k : ℕ). replicate {A = ℕ} k 0) {x = 8 + n * 8} {y = suc n * 8} (omega arith)

-- The bytes of a packet's cells and of the zeros after them.
words_bytes-padding :
    (bytes : List ℕ) (pad : ℕ)
    → All IsByte bytes
    → words_bytes (bytes_to_i64 bytes ++ replicate pad 0)
      ≡ bytes ++ replicate ((length bytes + 7) / 8 * 8 - length bytes + pad * 8) 0
unfolding i64_to_bytes
words_bytes-padding bytes pad v =
    let fill : ℕ = (length bytes + 7) / 8 * 8 - length bytes in
    words_bytes-append (bytes_to_i64 bytes) (replicate pad 0)
    ∙ ap₂ ◌++◌ (i64_to_bytes-bytes_to_i64 bytes v) (words_bytes-zeros pad)
    ∙ append_assoc bytes (replicate fill 0) (replicate (pad * 8) 0)
    ∙ ap (λ l. bytes ++ l) (replicate-append fill (pad * 8))

module _ (kdf : Hkdf) (w h : ℕ) (small : w * h * 16 ≤ 8160) where
  packet_key_lem :
      (keys : SharedKeys)
      → All IsWord keys.0
      → (key : List ℕ) × (packet_key kdf w h keys ≡ ok key)
        × (length key ≡ w * h * 2)
        × All IsWord key
  unfolding packet_key get_correct_key expect
  packet_key_lem keys words = elim (Bool-cases (length keys.0 == w * h * 2)) [
    | inl fits ↦ (keys.0, rw fits refl, (==_iff (length keys.0) (w * h * 2)).0 fits, words)
    | inr other ↦
        let (okm, expanded, size, bytes) =
          kdf.expand-fills none (words_bytes keys.0) (derived_label w h) (w * h * 2 * 8)
            (omega arith) in
        let cells = exact_cells_lem (w * h * 2) okm bytes size in
        (exact_cells okm, rw (other, expanded) refl, cells.0, cells.1)
  ]

module _ (prims : Primitives) (m : Mac) (kdf : Hkdf) (avx2 : Bool) (w h : ℕ)
    (valid : valid_dimensions w h ≡ true) (small : w * h * 16 ≤ 8160) where
  -- For valid dimensions whose key HKDF can give (at most 510 cells), session keys whose grid key is of
  -- 64-bit words, of any length, and whose tag key has 32 bytes, and a nonce from any seed: a packet of
  -- bytes that is encrypted is decrypted under the same keys to its bytes, followed by fewer zeros than
  -- fill one grid. Neither call fails or panics, and what is sent is longer by 32 bytes and one grid.
  pub decrypt_packet-encrypt_packet :
      (key_seed : Option (List ℕ)) (seed packet_bytes : List ℕ) (keys : SharedKeys)
      → All IsByte packet_bytes
      → All IsWord keys.0
      → length keys.1 ≡ 32
      → (sealed : List ℕ) × (pad : ℕ) × (encrypt_packet prims m kdf avx2 w h key_seed
            (some seed)
            packet_bytes
            keys
          ≡ ok sealed)
        × (decrypt_packet prims m kdf avx2 w h sealed keys
            ≡ ok (some (packet_bytes ++ replicate pad 0)))
        × (pad < w * h * 8)
        × (length sealed ≡ 32 + (w * h * 8 + (length packet_bytes + pad)))
  unfolding encrypt_packet decrypt_packet expect_ok attempt decrypt_opened i64_to_bytes
  decrypt_packet-encrypt_packet key_seed seed packet_bytes keys v words size =
      let (key, chosen, long, vk) = packet_key_lem kdf w h small keys words in
      let input = bytes_to_i64 packet_bytes in
      let (data', opened, p, out, pad, forth, read, unlocked, back, flat, few, total) =
        decrypt-open_packet w h valid prims m avx2 key_seed seed input key keys.1 (omega arith)
          (bytes_to_i64-words packet_bytes v) vk long in
      let made = encrypt-key prims avx2 w h key_seed (some seed) input key data' forth in
      let tag_key : (length keys.1 == 32) ≡ true = (==_iff (length keys.1) 32).1 size in
      let fill : ℕ = (length packet_bytes + 7) / 8 * 8 - length packet_bytes in
      (
        to_bytes (authenticate m data' keys.1),
        fill + pad * 8,
        rw (chosen, forth, tag_key) refl,
        rw (read, chosen, made, tag_key, unlocked, back)
            (ap (λ l. ok (some l)) (ap words_bytes flat ∙ words_bytes-padding packet_bytes pad v)),
        omega arith,
        omega (arith, total, length-bytes_to_i64 packet_bytes),
      )
