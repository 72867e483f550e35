-- ===== src/Chat/Network.antt =====
-- chat/src/network/mod.rs: packets on a socket. What has arrived on a socket is the list of its bytes,
-- and it has closed after them. The encoder of packets (wincode) is not part of the repository: it is
-- the operations of `Codec`, which reads back what it wrote whatever follows it.
pub mod Wire
pub mod Sent
pub mod Text
pub mod Receive
pub mod Replay
pub mod Verdicts
use why.Common.{
  ℕ, zero, suc, ◌+◌, ◌*◌, ◌%◌, ◌^◌, ◌≡◌, Bool, true, false, ◌&&◌, not, ltb, leb, ◌==◌,
  if◌then◌else◌, Option, none, some, List, [], ◌∷◌, ◌++◌, length, take, drop, get_or, bit_xor, All,
  IsByte, wrapping_add, be_bytes, from_be_bytes,
}
use why.Core.Outcome.{Outcome, ok, ◌>>=◌}
use why.Core.Consts.{default_grid_width, default_grid_height}
use why.Core.Crypto.{Primitives}
use why.Core.Auth.{Mac}
use why.Chat.Crypto.{
  Hkdf, SharedKeys, RexPacketStream, expect, encrypt_packet, decrypt_packet, seal, open_sealed,
}

-- `wincode::config::serialize` and `deserialize`, with the configuration of the packets.
pub record Codec (P : Type 0) : Type 0 where
  pub serialize : P → Option (List ℕ)
  pub deserialize : List ℕ → Option P
  pub serialize-IsByte : (p : P) (bytes : List ℕ) → serialize p ≡ some bytes → All IsByte bytes
  pub deserialize-serialize :
      (p : P) (bytes after : List ℕ)
      → serialize p ≡ some bytes
      → deserialize (bytes ++ after) ≡ some p

-- The trait of the packets that carry a sequence number.
pub record SequencedPacket (P : Type 0) : Type 0 where
  pub seq : P → ℕ
  pub set_seq : P → ℕ → P

pub record Packet (Code : Type 0) : Type 0 where
  pub code : Code
  pub seq : ℕ

pub packet_sequenced : (Code : Type 0) → SequencedPacket (Packet Code)
packet_sequenced Code = record {
  seq = λ p. p.seq;
  set_seq = λ p seq. record { code = p.code; seq = seq };
}

pub data EncryptionMode : Type 0 where
  one_shot : Option SharedKeys → EncryptionMode
  stream : RexPacketStream → EncryptionMode

-- The loop of `obfuscate_data`, from position `i` on.
obfuscate_from : ℕ → List ℕ → List ℕ → List ℕ
obfuscate_from i [] obfuscation_key = []
obfuscate_from i (byte ∷ rest) obfuscation_key =
    bit_xor byte (get_or obfuscation_key (i % length obfuscation_key) 0)
    ∷ obfuscate_from (suc i) rest obfuscation_key

pub obfuscate_data : List ℕ → List ℕ → List ℕ
obfuscate_data bytes obfuscation_key = obfuscate_from 0 bytes obfuscation_key

-- The length as a `u32`, big-endian, and the bytes.
unfoldable pub transmission_packet : List ℕ → List ℕ
transmission_packet final_bytes = be_bytes 4 (length final_bytes % 2 ^ 32) ++ final_bytes

-- The counter that a packet's number comes from. `no_session` is a connection of the server that has
-- not logged in, or that is gone: the packet keeps its number.
pub data Counter : Type 0 where
  counting : ℕ → Counter
  no_session : Counter

unfoldable pub numbered_packet : {P : Type 0} → SequencedPacket P → P → Counter → P × Counter
numbered_packet sp packet (counting last) =
    (sp.set_seq packet (wrapping_add last 1), counting (wrapping_add last 1))
numbered_packet sp packet no_session = (packet, no_session)

-- `read_exact`: the bytes and what is left, or the end of the socket.
unfoldable pub read_exact : ℕ → List ℕ → Option (List ℕ × List ℕ)
read_exact n input = if leb n (length input) then some (take n input, drop n input) else none

-- How a read ends: with the payload, with a payload that does not verify, with the end of the socket,
-- or over the limit. The server removes the connection on the last two.
pub data ReadEnd : Type 0 where
  payload : EncryptionMode → List ℕ → List ℕ → ReadEnd
  unverified : EncryptionMode → List ℕ → ReadEnd
  closed : ReadEnd
  over_limit : ReadEnd

module _ (prims : Primitives) (m : Mac) (kdf : Hkdf) (avx2 : Bool) where
  unfoldable pub protect :
      Option (List ℕ) → List ℕ → EncryptionMode → List ℕ → Outcome (EncryptionMode × List ℕ)
  protect nonce_seed obfuscation_key (one_shot (some keys)) packet_bytes = do
    sealed ←
        encrypt_packet prims m kdf avx2 default_grid_width default_grid_height none nonce_seed
          packet_bytes keys
    ok (one_shot (some keys), sealed)
  protect nonce_seed obfuscation_key (one_shot none) packet_bytes =
      ok (one_shot none, obfuscate_data packet_bytes obfuscation_key)
  protect nonce_seed obfuscation_key (stream rex_stream) packet_bytes = do
    sealed ← seal m avx2 default_grid_width default_grid_height rex_stream packet_bytes
    ok (stream sealed.0, sealed.1)

  -- `send_tcp`: the mode and the counter after it, and the bytes that are written.
  unfoldable pub send_tcp :
      {P : Type 0}
      → SequencedPacket P
      → Codec P
      → Option (List ℕ)
      → List ℕ
      → P
      → EncryptionMode
      → Counter
      → Outcome (EncryptionMode × Counter × List ℕ)
  send_tcp sp codec nonce_seed obfuscation_key packet encryption_mode seq =
      let sent = numbered_packet sp packet seq in
      expect (codec.serialize sent.0) >>= λ packet_bytes.
      protect nonce_seed obfuscation_key encryption_mode packet_bytes >>= λ final.
      ok (final.0, sent.1, transmission_packet final.1)

  unfoldable pub verified : EncryptionMode → List ℕ → Option (List ℕ) → ReadEnd
  verified mode rest (some bytes) = payload mode bytes rest
  verified mode rest none = unverified mode rest

  -- The last part of `read_tcp`: the payload under its mode.
  unfoldable pub unprotect : List ℕ → EncryptionMode → List ℕ → List ℕ → Outcome ReadEnd
  unprotect obfuscation_key (one_shot (some keys)) bytes rest = do
    opened ← decrypt_packet prims m kdf avx2 default_grid_width default_grid_height bytes keys
    ok (verified (one_shot (some keys)) rest opened)
  unprotect obfuscation_key (one_shot none) bytes rest =
      ok (payload (one_shot none) (obfuscate_data bytes obfuscation_key) rest)
  unprotect obfuscation_key (stream rex_stream) bytes rest = do
    opened ← open_sealed m avx2 default_grid_width default_grid_height rex_stream bytes
    ok (verified (stream opened.0) rest opened.1)

  unfoldable pub read_rest : List ℕ → EncryptionMode → Option (List ℕ × List ℕ) → Outcome ReadEnd
  read_rest obfuscation_key mode none = ok closed
  read_rest obfuscation_key mode (some (bytes, rest)) = unprotect obfuscation_key mode bytes rest

  unfoldable pub read_len : ℕ → List ℕ → EncryptionMode → Option (List ℕ × List ℕ) → Outcome ReadEnd
  read_len max_packet_size obfuscation_key mode none = ok closed
  read_len max_packet_size obfuscation_key mode (some (len_buf, input)) =
      let len : ℕ = from_be_bytes len_buf in
      let rest = read_rest obfuscation_key mode (read_exact len input) in
      if ltb max_packet_size len then ok over_limit else rest

  unfoldable pub read_tcp : ℕ → List ℕ → EncryptionMode → List ℕ → Outcome ReadEnd
  read_tcp max_packet_size obfuscation_key mode input =
      read_len max_packet_size obfuscation_key mode (read_exact 4 input)
