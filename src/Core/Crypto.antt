-- ===== src/Core/Crypto.antt =====
-- core/src/crypto.rs: the key schedule and the keystream. SHA-256 and ChaCha20 are not part of the
-- repository: they are the operations of `Primitives`, with the little that the code relies on.
pub mod Keystream
pub mod Counter
pub mod Ctr
pub mod Schedule
use why.Common.{
  ℕ, zero, suc, ◌+◌, ◌-◌, ◌*◌, ◌^◌, ◌%◌, ◌≡◌, Bool, if◌then◌else◌, Option, none, some, List, [],
  ◌∷◌, map, length, take, drop, ltb, leb, All, IsWord, wrapping_add,
}
use mathlib.Core.Option.{get_or}
use why.Core.Consts.{round_keys}
use why.Core.Outcome.{Outcome, ok, panic, ◌>>=◌}
use why.Core.Grid.{Grid, from_key}
use why.Core.Grid.Bytes.{grid_bytes}
use why.Core.Grid.Xor.{xor_grids}
use why.Core.Grid.Increment.{increment}
use why.Core.Grid.Subcell.{subcell}
use why.Core.Grid.Shift.{precalculate_shifts, shift_rows}
use why.Core.Grid.Mix.{mix_columns}

pub record Primitives : Type 1 where
  pub sha256 : List ℕ → List ℕ
  pub Rng : Type 0
  pub from_seed : List ℕ → Rng
  pub fill : ℕ → Rng → List ℕ × Rng
  pub length-fill : (n : ℕ) (rng : Rng) → length (fill n rng).0 ≡ n
  pub fill-words : (n : ℕ) (rng : Rng) → All IsWord (fill n rng).0

-- The grid's bytes are hashed cell by cell, which is hashing them at once.
pub sha256_seed_grid : Primitives → Grid → List ℕ
sha256_seed_grid prims key = prims.sha256 (grid_bytes key)

module _ (prims : Primitives) (w h : ℕ) where
  open prims use {Rng, from_seed, fill}

  pub generate_key_deterministic : Rng → List ℕ × Rng
  generate_key_deterministic rng = fill (2 * w * h) rng

  -- `none` is a system generator that fails, on which the code panics.
  pub generate_key : Option (List ℕ) → Outcome (List ℕ)
  generate_key none = panic
  generate_key (some seed) = ok (generate_key_deterministic (from_seed seed)).0

  -- The loop of the schedule, with the keys left to push.
  pub push_keys : ℕ → Rng → Outcome (List Grid)
  push_keys zero rng = ok []
  push_keys (suc n) rng =
      let (key, rng') = generate_key_deterministic rng in
      let rest = push_keys n rng' in from_key w h key >>= λ grid. rest >>= λ keys. ok (grid ∷ keys)

  pub generate_round_keys : Grid → Outcome (List Grid)
  generate_round_keys master_key =
      push_keys round_keys (from_seed (sha256_seed_grid prims master_key))

  pub generate_nonce : Option (List ℕ) → Outcome Grid
  generate_nonce seed = do key ← generate_key seed; from_key w h key

-- `round_keys[1..round_keys.len() - 1]`
pub inner_keys : List Grid → List Grid
inner_keys keys = take (length keys - 2) (drop 1 keys)

pub derive_round_shifts : ℕ → List Grid → Outcome (List (List ℕ))
derive_round_shifts w keys =
    if leb 2 (length keys) then ok (map (precalculate_shifts w) (inner_keys keys)) else panic

-- `round_keys[round_keys.len() - 1]`, where the first key is `first`.
pub last_or : Grid → List Grid → Grid
last_or first [] = first
last_or first (key ∷ keys) = last_or key keys

-- `avx2` is what the processor says of itself.
module _ (avx2 : Bool) (w h : ℕ) where
  -- One round: key, substitution, row shift, column mix.
  pub round : ℕ → Grid → List ℕ → Grid → Outcome Grid
  round i round_key shifts block = do
    let mixed = subcell avx2 w h (xor_grids w h block round_key) i
    rows ← shift_rows shifts mixed.rows
    mix_columns w h (record { rows = rows })

  -- The loop over the inner keys, from round `i` on.
  pub rounds : ℕ → List Grid → List (List ℕ) → Grid → Outcome Grid
  rounds i [] shifts block = ok block
  rounds i (key ∷ keys) [] block = panic
  rounds i (key ∷ keys) (s ∷ shifts) block =
      round i key s block >>= λ block'. rounds (suc i) keys shifts block'

  -- What `keystream_block` does to the counter block: a whitening key, the rounds, a whitening key.
  -- A schedule of fewer than two keys is indexed or sliced out of range.
  pub permute : List Grid → List (List ℕ) → Grid → Outcome Grid
  permute [] shifts block = panic
  permute (first ∷ []) shifts block = panic
  permute (first ∷ second ∷ keys) shifts block = do
    mixed ← rounds 0 (inner_keys (first ∷ second ∷ keys)) shifts (xor_grids w h block first)
    ok (xor_grids w h mixed (last_or first (second ∷ keys)))

  pub keystream : Grid → List Grid → List (List ℕ) → ℕ → Outcome Grid
  keystream nonce keys shifts counter = permute keys shifts (increment w h nonce counter)

  pub keystream_block : Grid → Grid → List Grid → List (List ℕ) → ℕ → Outcome Grid
  keystream_block grid nonce keys shifts counter = do
    block ← keystream nonce keys shifts counter
    ok (xor_grids w h grid block)

  -- The grids from index `i` on. The parallel branch runs the same body on each grid for itself, and
  -- the results stand in the same places.
  pub each_grid : Grid → List Grid → List (List ℕ) → ℕ → ℕ → List Grid → Outcome (List Grid)
  each_grid nonce keys shifts offset i [] = ok []
  each_grid nonce keys shifts offset i (grid ∷ grids) =
      let rest = each_grid nonce keys shifts offset (suc i) grids in
      keystream_block grid nonce keys shifts (wrapping_add offset i) >>= λ out.
      rest >>= λ outs. ok (out ∷ outs)

  pub apply_ctr_with_shifts :
      List Grid → Grid → List Grid → List (List ℕ) → Option ℕ → Outcome (List Grid)
  apply_ctr_with_shifts grids nonce keys shifts counter_offset =
      if leb 2 (length keys)
      then if leb (length keys - 2) (length shifts)
        then each_grid nonce keys shifts (get_or counter_offset 0) 0 grids
        else panic
      else panic

  pub apply_ctr : List Grid → Grid → List Grid → Option ℕ → Outcome (List Grid)
  apply_ctr grids nonce keys counter_offset = do
    shifts ← derive_round_shifts w keys
    apply_ctr_with_shifts grids nonce keys shifts counter_offset
