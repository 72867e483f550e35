-- ===== src/Core/Encrypter.antt =====
-- core/src/encrypter.rs: `encrypt` and `encrypt_string`. The seeds are what the system generator gives
-- for the key and for the nonce, in this order; a character is its code point.
pub mod Shaping
use why.Common.{
  ℕ, zero, suc, ◌+◌, ◌-◌, ◌*◌, ◌/◌, ◌%◌, ◌^◌, Bool, not, ◌==◌, if◌then◌else◌, Option, none, some,
  List, [], ◌∷◌, ◌++◌, bit_or, length,
}
use why.Core.Outcome.{Outcome, ok, panic, ◌>>=◌, collect}
use why.Core.Grid.{Grid, chunks, from_key, from_flat}
use why.Core.Crypto.{Primitives, generate_key, generate_round_keys, generate_nonce, apply_ctr}
use why.Core.Types.{EncryptedData}

-- `slice::chunks`, which panics on the size 0.
pub slice_chunks : ℕ → List ℕ → Outcome (List (List ℕ))
slice_chunks n xs = if n == 0 then panic else ok (chunks ((length xs + n - 1) / n) n xs)

-- `input.chunks(W * H).map(Grid::from_flat).collect::<Result<Vec<_>, _>>()`
pub shape_grids : ℕ → ℕ → List ℕ → Outcome (List Grid)
shape_grids w h input = slice_chunks (w * h) input >>= λ parts. collect (from_flat w h) parts

-- `u32::MAX`, which is no character.
abbrev pub terminator : ℕ
terminator = 2 ^ 32 - 1

-- The code points, the terminator, and a zero where the number of units is odd.
unfoldable pub string_units : List ℕ → List ℕ
string_units chars =
    let units = chars ++ terminator ∷ [] in
    if not (length units % 2 == 0) then units ++ 0 ∷ [] else units

-- Two units in a cell, the first in the high half. A pair that lacks its second unit is indexed out
-- of range.
unfoldable pub pack : List ℕ → Outcome (List ℕ)
pack [] = ok []
pack (a ∷ []) = panic
pack (a ∷ b ∷ units) = pack units >>= λ cells. ok (bit_or (a * 2 ^ 32 % 2 ^ 64) b ∷ cells)

module _ (prims : Primitives) (avx2 : Bool) (w h : ℕ) (key_seed nonce_seed : Option (List ℕ)) where
  unfoldable pub used_key : Option (List ℕ) → Outcome (List ℕ)
  used_key (some key) = ok key
  used_key none = generate_key prims w h key_seed

  unfoldable pub encrypt : List ℕ → Option (List ℕ) → Outcome EncryptedData
  encrypt input key = do
    key_used ← used_key key
    grids ← shape_grids w h input
    key_grid ← from_key w h key_used
    round_keys ← generate_round_keys prims w h key_grid
    nonce ← generate_nonce prims w h nonce_seed
    output ← apply_ctr avx2 w h grids nonce round_keys none
    ok (record { output = output; key = key_grid; nonce = nonce })

  unfoldable pub encrypt_string : List ℕ → Option (List ℕ) → Outcome EncryptedData
  encrypt_string input key = do vec_input ← pack (string_units input); encrypt vec_input key
