-- ===== src/Core/Decrypter.antt =====
-- core/src/decrypter.rs: `decrypt` and `decrypt_string`.
pub mod Strings
pub mod RoundTrip
use why.Common.{
  ℕ, zero, suc, ◌+◌, ◌*◌, ◌/◌, ◌%◌, ◌^◌, Bool, ◌&&◌, ◌||◌, ltb, leb, ◌==◌, if◌then◌else◌, none,
  List, [], ◌∷◌, ◌++◌,
}
use why.Core.Outcome.{Outcome, ok, err, ◌>>=◌, invalid_unicode}
use why.Core.Grid.{Grid, to_flat}
use why.Core.Crypto.{Primitives, generate_round_keys, apply_ctr}
use why.Core.Types.{EncryptedData, DecryptedData}
use why.Core.Encrypter.{terminator}

-- `grids.iter().flat_map(Grid::to_flat).collect()`
unfoldable pub flatten : List Grid → List ℕ
flatten [] = []
flatten (g ∷ gs) = to_flat g ++ flatten gs

-- `char::from_u32`: the code points without the surrogates.
abbrev pub is_char : ℕ → Bool
is_char unit = ltb unit 55296 || (leb 57344 unit && ltb unit 1114112)

-- The two units of each cell, the high half first.
pub unpack : List ℕ → List ℕ
unpack [] = []
unpack (n ∷ cells) = n / 2 ^ 32 % 2 ^ 32 ∷ n % 2 ^ 32 ∷ unpack cells

-- The loop over the units. The terminator ends it; units that end without one are an error, and so is
-- a unit that is no character.
pub read_units : List ℕ → Outcome (List ℕ)
read_units [] = err invalid_unicode
read_units (unit ∷ units) =
    let rest = read_units units in
    if unit == terminator
    then ok []
    else if is_char unit
    then (rest >>= λ chars. ok (unit ∷ chars))
    else err invalid_unicode

module _ (prims : Primitives) (avx2 : Bool) (w h : ℕ) where
  pub decrypt : EncryptedData → Outcome DecryptedData
  decrypt input = do
    round_keys ← generate_round_keys prims w h input.key
    grids ← apply_ctr avx2 w h input.output input.nonce round_keys none
    ok (record { output = flatten grids; key = to_flat input.key })

  pub decrypt_string : EncryptedData → Outcome (List ℕ)
  decrypt_string input = do decrypted ← decrypt input; read_units (unpack decrypted.output)
