-- ===== src/Tests/Packets.antt =====
-- core/src/auth.rs: the theorems on packets, on small grids.
use why.Common.{
  ℕ, ◌+◌, ◌*◌, ◌%◌, ◌<◌, ◌≡◌, ◌↔◌, refl, arith, true, none, some, [], ◌∷◌, ◌++◌, length, replicate,
}
use why.Core.Outcome.{ok}
use why.Core.Grid.Bytes.{grid_bytes, grids_bytes}
use why.Core.Types.{EncryptedData, DecryptedData}
use why.Core.Encrypter.{encrypt}
use why.Core.Decrypter.{decrypt}
use why.Core.Auth.{
  AuthenticatedData, AuthenticatedPacket, authenticate, open_packet, to_bytes, try_from,
}
use why.Core.Auth.Packets.{open_packet_iff, decrypt-open_packet}
use why.Tests.Fixtures.{striped, full, small, toy, toy_mac, key, key-words, cells, cells-words}

abbrev message : EncryptedData
message = record { output = striped ∷ full ∷ []; key = full; nonce = striped }

abbrev tagged : AuthenticatedData
tagged = record { mac = replicate 32 9; encrypted_data = message }

abbrev forged : AuthenticatedPacket
forged = record { mac = []; nonce = striped; output = full ∷ [] }

open_packet_iff_example :
    (open_packet toy_mac forged cells full
      ≡ some (record { output = full ∷ []; key = full; nonce = striped }))
    ↔ (replicate 32 (length (grid_bytes striped ++ grids_bytes (full ∷ [])) % 256) ≡ [])
open_packet_iff_example = open_packet_iff toy_mac forged cells full

decrypt-open_packet_example :
    (sealed opened : EncryptedData) × (p : AuthenticatedPacket) × (out : DecryptedData) × (pad : ℕ)
    × (encrypt toy true 2 4 none (some []) cells (some key) ≡ ok sealed)
    × (try_from 2 4 (to_bytes (authenticate toy_mac sealed key)) ≡ ok p)
    × (open_packet toy_mac p key sealed.key ≡ some opened)
    × (decrypt toy true 2 4 opened ≡ ok out)
    × (out.output ≡ cells ++ replicate pad 0)
    × (pad < 2 * 4)
    × (length (to_bytes (authenticate toy_mac sealed key))
        ≡ 32 + (2 * 4 * 8 + (length cells + pad) * 8))
decrypt-open_packet_example =
    decrypt-open_packet 2 4 small toy toy_mac true none [] cells key key (omega arith) cells-words
      key-words refl
