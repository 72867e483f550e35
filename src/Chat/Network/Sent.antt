-- ===== src/Chat/Network/Sent.antt =====
-- chat/src/network/mod.rs: what `send_tcp` writes on the main connection is what `read_tcp` gives and
-- what the decoder makes of it.
use why.Common.{
  ℕ, ◌+◌, ◌^◌, ◌≤◌, ◌<◌, ◌≡◌, refl, sym, ap, ◌∙◌, arith, Bool, Option, none, some, List, ◌++◌,
  length, replicate, All, IsWord, append-nil,
}
use why.Core.Outcome.{ok}
use why.Core.Consts.{default_grid_width, default_grid_height}
use why.Core.Crypto.{Primitives}
use why.Core.Auth.{Mac}
use why.Chat.Crypto.{Hkdf, SharedKeys, expect}
use why.Chat.Crypto.Packets.{decrypt_packet-encrypt_packet}
use why.Chat.Network.{
  Codec, SequencedPacket, one_shot, obfuscate_data, transmission_packet, Counter, numbered_packet,
  payload, protect, send_tcp, verified, unprotect, read_tcp,
}
use why.Chat.Network.Wire.{
  obfuscate_data_twice, length-obfuscate_data, read_tcp-transmission_packet,
}

module _ (prims : Primitives) (m : Mac) (kdf : Hkdf) (avx2 : Bool) {P : Type 0}
    (sp : SequencedPacket P) (codec : Codec P) (max_packet_size : ℕ)
    (obfuscation_key : List ℕ) where
  -- Before there are keys: a packet that is encoded to fewer bytes than the limit and 2 ^ 32 is read
  -- and decoded as it was numbered, under the same obfuscation key, and what follows it is left.
  pub read_tcp-send_tcp_plain :
      (nonce_seed : Option (List ℕ)) (packet : P) (seq : Counter) (bytes rest : List ℕ)
      → codec.serialize (numbered_packet sp packet seq).0 ≡ some bytes
      → length bytes ≤ max_packet_size
      → length bytes < 2 ^ 32
      → (written data' : List ℕ) × (send_tcp prims m kdf avx2 sp codec nonce_seed obfuscation_key
            packet
            (one_shot none)
            seq
          ≡ ok (one_shot none, (numbered_packet sp packet seq).1, written))
        × (read_tcp prims m kdf avx2 max_packet_size obfuscation_key
              (one_shot none)
              (written ++ rest)
            ≡ ok (payload (one_shot none) data' rest))
        × (codec.deserialize data' ≡ some (numbered_packet sp packet seq).0)
  unfolding send_tcp protect expect unprotect
  read_tcp-send_tcp_plain nonce_seed packet seq bytes rest encoded fits small =
      let hidden = obfuscate_data bytes obfuscation_key in
      let size = length-obfuscate_data bytes obfuscation_key in
      (
        transmission_packet hidden,
        bytes,
        rw encoded refl,
        read_tcp-transmission_packet prims m kdf avx2 max_packet_size obfuscation_key
              (one_shot none) hidden rest (omega arith) (omega arith)
            ∙ ap (λ l. ok (payload (one_shot none) l rest))
                (obfuscate_data_twice bytes obfuscation_key),
        ap codec.deserialize (sym (append-nil bytes))
            ∙ codec.deserialize-serialize (numbered_packet sp packet seq).0 bytes _ encoded,
      )

  -- Under session keys with a tag key of 32 bytes and a grid key of any length: a packet that is
  -- encoded to at most the limit less 1056 bytes, and to few enough for a 32-bit length, is read and
  -- decoded as it was numbered, whatever the nonce, and what follows it is left.
  pub read_tcp-send_tcp_keys :
      (seed : List ℕ) (keys : SharedKeys) (packet : P) (seq : Counter) (bytes rest : List ℕ)
      → All IsWord keys.0
      → length keys.1 ≡ 32
      → codec.serialize (numbered_packet sp packet seq).0 ≡ some bytes
      → length bytes + 1056 ≤ max_packet_size
      → length bytes + 1056 < 2 ^ 32
      → (written data' : List ℕ) × (send_tcp prims m kdf avx2 sp codec
            (some seed)
            obfuscation_key
            packet
            (one_shot (some keys))
            seq
          ≡ ok (one_shot (some keys), (numbered_packet sp packet seq).1, written))
        × (read_tcp prims m kdf avx2 max_packet_size obfuscation_key
              (one_shot (some keys))
              (written ++ rest)
            ≡ ok (payload (one_shot (some keys)) data' rest))
        × (codec.deserialize data' ≡ some (numbered_packet sp packet seq).0)
  unfolding send_tcp protect expect unprotect verified
  read_tcp-send_tcp_keys seed keys packet seq bytes rest words tag_key encoded fits small =
      let numbered = (numbered_packet sp packet seq).0 in
      let (sealed, pad, forth, back, few, size) =
        decrypt_packet-encrypt_packet prims m kdf avx2 default_grid_width default_grid_height refl
          (omega arith) none seed bytes keys (codec.serialize-IsByte numbered bytes encoded) words
          tag_key in
      (
        transmission_packet sealed,
        bytes ++ replicate pad 0,
        rw (encoded, forth) refl,
        read_tcp-transmission_packet prims m kdf avx2 max_packet_size obfuscation_key
              (one_shot (some keys)) sealed rest (omega arith) (omega arith)
            ∙ rw back refl,
        codec.deserialize-serialize numbered bytes (replicate pad 0) encoded,
      )
