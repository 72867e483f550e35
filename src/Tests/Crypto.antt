-- ===== src/Tests/Crypto.antt =====
-- chat/src/crypto: the theorems on packets, streams and files, on small keys and packets.
use why.Common.{
  ℕ, ◌+◌, ◌*◌, ◌<◌, ◌≡◌, ◌⊎◌, ◌↔◌, refl, arith, true, none, some, List, [], ◌∷◌, ◌++◌, map, length,
  replicate, IsWord, All-replicate,
}
use why.Core.Outcome.{ok, ◌>>=◌}
use why.Core.Consts.{default_grid_width, default_grid_height}
use why.Common.Words.{from_be, from_be_bytes}
use why.Core.Grid.{chunks}
use why.Chat.Crypto.{
  SharedKeys, RexPacketStream, padded, bytes_to_i64, packet_mac, advanced, pass, open_sealed,
  encrypt_packet, decrypt_packet, init_rex_stream,
}
use why.Chat.Crypto.Frames.{open_sealed-cases}
use why.Chat.Crypto.Session.{seal_all, open_all, open_all-seal_all}
use why.Chat.Crypto.Packets.{decrypt_packet-encrypt_packet}
use why.Chat.Crypto.Disk.{disk_open, disk_seal, disk_open_iff}
use why.Tests.Fixtures.{toy, toy_mac, toy_hkdf, small, striped}

abbrev session_keys : SharedKeys
session_keys = (replicate 128 5, replicate 32 6)

abbrev wrong_size_keys : SharedKeys
wrong_size_keys = (7 ∷ 8 ∷ [], replicate 32 6)

abbrev hello : List ℕ
hello = 104 ∷ 101 ∷ 108 ∷ 108 ∷ 111 ∷ []

abbrev two_packets : List (List ℕ)
two_packets = hello ∷ (1 ∷ 2 ∷ 3 ∷ 4 ∷ 5 ∷ 6 ∷ 7 ∷ 8 ∷ 9 ∷ []) ∷ []

packs : bytes_to_i64 (0 ∷ 0 ∷ 0 ∷ 0 ∷ 0 ∷ 0 ∷ 1 ∷ 2 ∷ 128 ∷ []) ≡ 258 ∷ 9223372036854775808 ∷ []
unfolding bytes_to_i64 padded chunks from_be_bytes from_be
packs = refl

open_all-seal_all_example :
    (begin last : RexPacketStream) × (frames : List (List ℕ)) × (init_rex_stream toy toy_hkdf
        session_keys hello
      ≡ ok (some begin))
    × (seal_all toy_mac true default_grid_width default_grid_height begin two_packets
        ≡ ok (last, frames))
    × (open_all toy_mac true default_grid_width default_grid_height begin frames
        ≡ ok (last, map some two_packets))
open_all-seal_all_example =
    open_all-seal_all toy toy_mac toy_hkdf true session_keys hello two_packets refl
      (All-replicate IsWord 128 5 (omega arith)) (omega arith)

decrypt_packet-encrypt_packet_example :
    (sealed : List ℕ) × (pad : ℕ) × (encrypt_packet toy toy_mac toy_hkdf true 2 4 none
        (some [])
        hello
        wrong_size_keys
      ≡ ok sealed)
    × (decrypt_packet toy toy_mac toy_hkdf true 2 4 sealed wrong_size_keys
        ≡ ok (some (hello ++ replicate pad 0)))
    × (pad < 2 * 4 * 8)
    × (length sealed ≡ 32 + (2 * 4 * 8 + (length hello + pad)))
decrypt_packet-encrypt_packet_example =
    decrypt_packet-encrypt_packet toy toy_mac toy_hkdf true 2 4 small (omega arith) none [] hello
      wrong_size_keys (omega arith) (omega arith) refl

disk_open_iff_example :
    (disk_open toy_mac [] (hello ++ replicate 32 13) ≡ some hello)
    ↔ (hello ++ replicate 32 13 ≡ hello ++ disk_seal toy_mac [] hello)
disk_open_iff_example = disk_open_iff toy_mac [] (hello ++ replicate 32 13) hello

abbrev idle : RexPacketStream
idle = record {
  stream = record {
    round_keys = striped ∷ [];
    round_shifts = [];
    nonce = striped;
    block_counter = 0;
    buffer = [];
  };
  mac_key = [];
  counter = 3;
}

open_sealed-cases_example :
    (open_sealed toy_mac true 2 4 idle hello ≡ ok (idle, none))
    ⊎ ((ciphertext : List ℕ) × (hello ≡ packet_mac toy_mac idle ciphertext ++ ciphertext)
        × (open_sealed toy_mac true 2 4 idle hello ≡ (
            pass true 2 4 idle.stream ciphertext >>= λ done.
            ok (advanced idle done.0, some done.1))))
open_sealed-cases_example = open_sealed-cases toy_mac true 2 4 idle hello
