-- ===== src/Core/Decrypter/RoundTrip.antt =====
-- core/src/encrypter.rs and core/src/decrypter.rs: decrypting what was encrypted.
use why.Common.{
  ℕ, ◌+◌, ◌*◌, ◌^◌, ◌<◌, ◌≡◌, refl, ap, ◌∙◌, arith, Bool, true, Option, none, some, List, ◌++◌,
  length, replicate, All, IsWord,
}
use why.Core.Outcome.{ok, >>=-succeeds}
use why.Core.Grid.{Grid, IsGrid, valid_dimensions, to_flat}
use why.Core.Grid.Keys.{from_key_lem}
use why.Core.Crypto.{Primitives}
use why.Core.Crypto.Ctr.{apply_ctr_twice}
use why.Core.Crypto.Schedule.{generate_round_keys_lem, generate_nonce_lem}
use why.Core.Types.{EncryptedData, DecryptedData}
use why.Core.Encrypter.{encrypt, encrypt_string, used_key}
use why.Core.Encrypter.Shaping.{shape_grids_lem}
use why.Core.Decrypter.{flatten, decrypt, decrypt_string, read_units, unpack}
use why.Core.Decrypter.Strings.{IsChar, string_cells, read_units-IsChar}

module _ (prims : Primitives) (avx2 : Bool) (w h : ℕ) (valid : valid_dimensions w h ≡ true)
    (fits : h * w < 2 ^ 64) where
  module _ (key_seed : Option (List ℕ)) (seed : List ℕ) where
    -- Encrypting then decrypting gives the input back, followed by the zeros that fill the last grid.
    -- The key has the right length, the dimensions are valid with fewer than 2 ^ 64 cells, the input is
    -- any list of 64-bit cells and the nonce comes from any seed: neither call fails or panics, and what
    -- is encrypted has the shape of the dimensions.
    pub decrypt-encrypt :
        (input key : List ℕ)
        → All IsWord input
        → All IsWord key
        → length key ≡ w * h * 2
        → (sealed : EncryptedData) × (out : DecryptedData) × (pad : ℕ) × (encrypt prims avx2 w h
              key_seed
              (some seed)
              input
              (some key)
            ≡ ok sealed)
          × (decrypt prims avx2 w h sealed ≡ ok out)
          × (out.output ≡ input ++ replicate pad 0)
          × (pad < w * h)
          × (length sealed.output * (w * h) ≡ length input + pad)
          × IsGrid w h sealed.nonce
          × All (IsGrid w h) sealed.output
    unfolding encrypt used_key decrypt
    decrypt-encrypt input key vi vk len =
        let (grids, pad, shaped, vg, small, whole, flat) = shape_grids_lem w h valid input vi in
        let (key_grid, made, vkg, cells) = from_key_lem w h key valid fits len vk in
        let (keys, expanded, count, vks) = generate_round_keys_lem prims w h key_grid valid fits in
        let (nonce, drawn, vn) = generate_nonce_lem prims w h seed valid fits in
        let (out, forth, vo, size, back) =
          apply_ctr_twice avx2 w h valid nonce keys grids none (omega arith) vks vn vg in
        (
          record { output = out; key = key_grid; nonce = nonce },
          record { output = flatten grids; key = to_flat key_grid },
          pad,
          rw (shaped, made, expanded, drawn, forth) refl,
          rw (expanded, back) refl,
          flat,
          small,
          ap (λ (n : ℕ). n * (w * h)) size ∙ whole,
          vn,
          vo,
        )

    -- Encrypting a string then decrypting it gives the same characters back, for any Unicode
    -- characters, any key of 64-bit words of the right length, any seed of the nonce, and valid
    -- dimensions with fewer than 2 ^ 64 cells.
    pub decrypt_string-encrypt_string :
        (chars key : List ℕ)
        → All IsChar chars
        → All IsWord key
        → length key ≡ w * h * 2
        → (sealed : EncryptedData) × (encrypt_string prims avx2 w h key_seed
              (some seed)
              chars
              (some key)
            ≡ ok sealed)
          × (decrypt_string prims avx2 w h sealed ≡ ok chars)
    unfolding encrypt_string decrypt_string
    decrypt_string-encrypt_string chars key vc vk len =
        let (cells, packed, words, read) = string_cells chars vc in
        let (sealed, out, pad, forth, back, flat, small, whole, vn, vo) =
          decrypt-encrypt cells key words vk len in
        (
          sealed,
          rw (packed, forth) refl,
          rw back (ap (λ l. read_units (unpack l)) flat ∙ read (replicate pad 0)),
        )

  -- Encrypted data with grids of the right shape always decrypts, to as many cells as its grids
  -- have, whatever the key.
  decrypt_lem :
      (sealed : EncryptedData)
      → IsGrid w h sealed.nonce
      → All (IsGrid w h) sealed.output
      → (out : DecryptedData) × (grids : List Grid) × (decrypt prims avx2 w h sealed ≡ ok out)
        × (out.output ≡ flatten grids)
        × All (IsGrid w h) grids
        × (length grids ≡ length sealed.output)
  unfolding decrypt
  decrypt_lem sealed vn vo =
      let (keys, expanded, count, vks) = generate_round_keys_lem prims w h sealed.key valid fits in
      let (grids, ran, vg, size, back) =
        apply_ctr_twice avx2 w h valid sealed.nonce keys sealed.output none (omega arith) vks vn
          vo in
      (
        record { output = flatten grids; key = to_flat sealed.key },
        grids,
        rw (expanded, ran) refl,
        refl,
        vg,
        size,
      )

-- A string that is decrypted holds characters only: a wrong key or corrupted data is an error or
-- another string, never text that is not Unicode.
pub decrypt_string-IsChar :
    (prims : Primitives) (avx2 : Bool) (w h : ℕ) (sealed : EncryptedData) (chars : List ℕ)
    → decrypt_string prims avx2 w h sealed ≡ ok chars
    → All IsChar chars
unfolding decrypt_string
decrypt_string-IsChar prims avx2 w h sealed chars e =
    let (out, read, ran) =
      >>=-succeeds (λ d. read_units (unpack d.output)) (decrypt prims avx2 w h sealed) e in
    read_units-IsChar (unpack out.output) chars read
