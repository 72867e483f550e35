-- ===== src/Tests/Ciphers.antt =====
-- core/src/crypto.rs, core/src/encrypter.rs and core/src/decrypter.rs: the theorems, on small grids.
use why.Common.{
  ℕ, ◌+◌, ◌*◌, ◌<◌, ◌≡◌, refl, arith, true, false, none, some, List, [], ◌∷◌, ◌++◌, length,
  replicate, All,
}
use why.Core.Consts.{round_keys}
use why.Core.Outcome.{ok}
use why.Core.Grid.{Grid, IsGrid}
use why.Core.Crypto.{generate_round_keys, apply_ctr}
use why.Core.Crypto.Counter.{keystream-injective}
use why.Core.Crypto.Ctr.{apply_ctr_twice}
use why.Core.Crypto.Schedule.{generate_round_keys_lem}
use why.Core.Types.{EncryptedData, DecryptedData}
use why.Core.Encrypter.{encrypt, encrypt_string}
use why.Core.Decrypter.{decrypt, decrypt_string}
use why.Core.Decrypter.Strings.{IsChar}
use why.Core.Decrypter.RoundTrip.{decrypt-encrypt, decrypt_string-encrypt_string}
use why.Tests.Fixtures.{
  striped, striped-IsGrid, full, full-IsGrid, small, schedule, row_shifts, schedule-IsSchedule, toy,
  key, key-words, cells, cells-words,
}

keystream-injective_example : let n : ℕ = 5 in n ≡ n
keystream-injective_example =
    keystream-injective true 2 4 small full schedule row_shifts 5 5 schedule-IsSchedule full-IsGrid
      (omega arith) (omega arith) refl

apply_ctr_twice_example :
    (out : List Grid) × (apply_ctr true 2 4 (striped ∷ full ∷ []) full schedule (some 9) ≡ ok out)
    × All (IsGrid 2 4) out
    × (length out ≡ length (striped ∷ full ∷ []))
    × (apply_ctr true 2 4 out full schedule (some 9) ≡ ok (striped ∷ full ∷ []))
apply_ctr_twice_example =
    apply_ctr_twice true 2 4 small full schedule (striped ∷ full ∷ []) (some 9) (omega arith)
      schedule-IsSchedule.grids full-IsGrid (striped-IsGrid, (full-IsGrid, tt))

generate_round_keys_lem_example :
    (keys : List Grid) × (generate_round_keys toy 2 4 striped ≡ ok keys)
    × (length keys ≡ round_keys)
    × All (IsGrid 2 4) keys
generate_round_keys_lem_example = generate_round_keys_lem toy 2 4 striped small (omega arith)

decrypt-encrypt_example :
    (sealed : EncryptedData) × (out : DecryptedData) × (pad : ℕ) × (encrypt toy false 2 4 none
        (some [])
        cells
        (some key)
      ≡ ok sealed)
    × (decrypt toy false 2 4 sealed ≡ ok out)
    × (out.output ≡ cells ++ replicate pad 0)
    × (pad < 2 * 4)
    × (length sealed.output * (2 * 4) ≡ length cells + pad)
    × IsGrid 2 4 sealed.nonce
    × All (IsGrid 2 4) sealed.output
decrypt-encrypt_example =
    decrypt-encrypt toy false 2 4 small (omega arith) none [] cells key cells-words key-words refl

-- The text "Ahoj".
abbrev text : List ℕ
text = 65 ∷ 104 ∷ 111 ∷ 106 ∷ []

text-IsChar : All IsChar text
text-IsChar = (refl, (refl, (refl, (refl, tt))))

decrypt_string-encrypt_string_example :
    (sealed : EncryptedData) × (encrypt_string toy true 2 4 none (some []) text (some key)
      ≡ ok sealed)
    × (decrypt_string toy true 2 4 sealed ≡ ok text)
decrypt_string-encrypt_string_example =
    decrypt_string-encrypt_string toy true 2 4 small (omega arith) none [] text key text-IsChar
      key-words refl

-- A string that was encrypted.
sealed_text :
    (sealed : EncryptedData) × (encrypt_string toy true 2 4 none (some []) text (some key)
      ≡ ok sealed)
    × (decrypt_string toy true 2 4 sealed ≡ ok text)
sealed_text =
    decrypt_string-encrypt_string toy true 2 4 small (omega arith) none [] text key text-IsChar
      key-words refl
