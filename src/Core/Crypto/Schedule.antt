-- ===== src/Core/Crypto/Schedule.antt =====
-- core/src/crypto.rs: the key schedule that the master key is expanded to.
use why.Common.{
  ℕ, zero, suc, ◌*◌, ◌^◌, ◌<◌, ◌≡◌, refl, ap, ◌∙◌, arith, true, false, some, List, [], ◌∷◌, length,
  All, IsWord,
}
use why.Core.Consts.{round_keys}
use why.Core.Outcome.{ok, err, invalid_dimensions}
use why.Core.Grid.{Grid, IsGrid, valid_dimensions}
use why.Core.Grid.Keys.{from_key_lem, from_key_invalid}
use why.Core.Crypto.{
  Primitives, sha256_seed_grid, generate_key_deterministic, generate_key, push_keys,
  generate_round_keys, generate_nonce,
}

module _ (prims : Primitives) (w h : ℕ) where
  open prims use {Rng, from_seed, length-fill, fill-words}

  key_length : (rng : Rng) → length (generate_key_deterministic prims w h rng).0 ≡ w * h * 2
  unfolding generate_key_deterministic
  key_length rng = length-fill (2 * w * h) rng ∙ (grind arith)

  key_words : (rng : Rng) → All IsWord (generate_key_deterministic prims w h rng).0
  unfolding generate_key_deterministic
  key_words rng = fill-words (2 * w * h) rng

  push_keys_lem :
      valid_dimensions w h ≡ true
      → h * w < 2 ^ 64
      → (n : ℕ) (rng : Rng)
      → (keys : List Grid) × (push_keys prims w h n rng ≡ ok keys)
        × (length keys ≡ n)
        × All (IsGrid w h) keys
  unfolding push_keys
  push_keys_lem valid fits zero rng = ([], refl, refl, tt)
  push_keys_lem valid fits (suc n) rng =
      let key = (generate_key_deterministic prims w h rng).0 in
      let rng' = (generate_key_deterministic prims w h rng).1 in
      let (grid, made, shaped, cells) =
        from_key_lem w h key valid fits (key_length rng) (key_words rng) in
      let (keys, rest, count, grids) = push_keys_lem valid fits n rng' in
      (grid ∷ keys, rw (made, rest) refl, ap suc count, (shaped, grids))

  -- A master key expands to one grid for each place of the schedule, whatever the bytes of the
  -- generator: for valid dimensions with fewer than 2 ^ 64 cells the call returns `round_keys`
  -- grids, each of the right shape.
  pub generate_round_keys_lem :
      (master : Grid)
      → valid_dimensions w h ≡ true
      → h * w < 2 ^ 64
      → (keys : List Grid) × (generate_round_keys prims w h master ≡ ok keys)
        × (length keys ≡ round_keys)
        × All (IsGrid w h) keys
  unfolding generate_round_keys
  generate_round_keys_lem master valid fits =
      push_keys_lem valid fits round_keys (from_seed (sha256_seed_grid prims master))

  -- Dimensions that `new` refuses give the error that names them.
  pub generate_round_keys_invalid :
      (master : Grid)
      → valid_dimensions w h ≡ false
      → generate_round_keys prims w h master ≡ err (invalid_dimensions w h)
  unfolding generate_round_keys push_keys
  generate_round_keys_invalid master invalid =
      let rng = from_seed (sha256_seed_grid prims master) in
      let key = (generate_key_deterministic prims w h rng).0 in
      rw (from_key_invalid w h key invalid (key_length rng)) refl

  -- A nonce is generated from any seed.
  pub generate_nonce_lem :
      (seed : List ℕ)
      → valid_dimensions w h ≡ true
      → h * w < 2 ^ 64
      → (nonce : Grid) × (generate_nonce prims w h (some seed) ≡ ok nonce) × IsGrid w h nonce
  unfolding generate_nonce generate_key
  generate_nonce_lem seed valid fits =
      let rng = from_seed seed in
      let key = (generate_key_deterministic prims w h rng).0 in
      let (grid, made, shaped, cells) =
        from_key_lem w h key valid fits (key_length rng) (key_words rng) in
      (grid, made, shaped)
