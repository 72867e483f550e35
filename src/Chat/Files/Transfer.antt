-- ===== src/Chat/Files/Transfer.antt =====
-- chat/src/network/file/mod.rs: a file that one end sends is the file that the other end receives.
use why.Common.{
  ℕ, zero, suc, ◌+◌, ◌*◌, ◌^◌, ◌≤◌, ◌<◌, ◌≡◌, refl, sym, ap, ◌∙◌, arith, Bool, true, ltb, none,
  some, List, [], ◌∷◌, ◌++◌, map, length, All, IsWord, wrapping_add, append_assoc, append-nil,
}
use why.Core.Outcome.{Outcome, ok, ◌>>=◌}
use why.Core.Consts.{default_grid_width, default_grid_height}
use why.Core.Grid.{Grid, IsGrid}
use why.Core.Crypto.{Primitives}
use why.Core.Crypto.Keystream.{IsSchedule}
use why.Core.Auth.{Mac}
use why.Core.Stream.Positions.{key_at}
use why.Chat.Crypto.{Hkdf, SharedKeys, RexPacketStream, expect, init_rex_stream}
use why.Chat.Crypto.Pass.{grids_of, mask_bytes, length-mask_bytes}
use why.Chat.Crypto.Frames.{frame, length-frame, end_at, seal_lem, open_lem}
use why.Chat.Crypto.Session.{init_rex_stream_lem}
use why.Chat.Network.{
  Codec, EncryptionMode, stream, counting, numbered_packet, transmission_packet, protect, send_tcp,
  verified, unprotect,
}
use why.Chat.Network.Wire.{read_tcp-transmission_packet}
use why.Chat.Files.{
  FilePacketCode, chunk, FilePacket, file_sequenced, FileRead, bytes_read, read_error, chunks_read,
  plaintext_of, SentFile, sent_before, received, refused, undecodable, file_seq_valid, decoded_file,
  file_end, send_file, receive_file,
}

-- The packet of a chunk can be encoded with any number, within the limit and a 32-bit length.
unfoldable pub Sendable : Codec FilePacket → ℕ → ℕ → List ℕ → Type 0
Sendable codec max_packet_size uid bytes =
    (seq : ℕ)
    → IsWord seq
    → (encoded : List ℕ) × (codec.serialize (record { uid = uid; code = chunk bytes; seq = seq })
        ≡ some encoded)
      × (length encoded + 32 ≤ max_packet_size)
      × (length encoded + 32 < 2 ^ 32)

-- The bytes sent after each chunk, as a 64-bit number.
pub progress_of : ℕ → List (List ℕ) → List ℕ
progress_of sent [] = []
progress_of sent (bytes ∷ chunks) =
    let total : ℕ = wrapping_add sent (length bytes) in total ∷ progress_of total chunks

-- What the receiver's loop has taken from the socket.
pub record ReceivedFile : Type 0 where
  pub packets : List (ℕ × FilePacketCode)
  pub mode : EncryptionMode
  pub last : ℕ
  pub rest : List ℕ

-- A packet before those that were received after it.
unfoldable pub received_before : ℕ → FilePacketCode → ReceivedFile → ReceivedFile
received_before uid code after = record {
  packets = (uid, code) ∷ after.packets;
  mode = after.mode;
  last = after.last;
  rest = after.rest;
}

abbrev pub received_file : List (ℕ × FilePacketCode) → EncryptionMode → ℕ → List ℕ → ReceivedFile
received_file packets mode last rest = record {
  packets = packets;
  mode = mode;
  last = last;
  rest = rest;
}

-- What the sender has where the file was not decrypted from the disk.
abbrev pub sent_file : EncryptionMode → ℕ → List ℕ → List ℕ → SentFile
sent_file mode last written progress = record {
  mode = mode;
  seq = counting last;
  disk_stream = none;
  written = written;
  progress = progress;
}

module _ (prims : Primitives) (m : Mac) (kdf : Hkdf) (avx2 : Bool) (codec : Codec FilePacket)
    (obfuscation_key : List ℕ) (max_packet_size : ℕ) where
  -- `receive_file` up to `count` times, as long as it gives a packet.
  unfoldable pub receive_times : ℕ → EncryptionMode → ℕ → List ℕ → Outcome ReceivedFile
  receive_times zero mode last input =
      ok (record { packets = []; mode = mode; last = last; rest = input })
  receive_times (suc count) mode last input =
      receive_file prims m kdf avx2 codec obfuscation_key max_packet_size mode last input >>= λ e.
      elim e [
        | received uid code mode' seq rest ↦
            receive_times count mode' seq rest >>= λ after. ok (received_before uid code after)
        | refused ↦ ok (record { packets = []; mode = mode; last = last; rest = input })
        | undecodable ↦ ok (record { packets = []; mode = mode; last = last; rest = input })
      ]

  module _ (nonce : Grid) (keys : List Grid) (shifts : List (List ℕ))
      (s : IsSchedule default_grid_width default_grid_height keys shifts)
      (vn : IsGrid default_grid_width default_grid_height nonce) (mac_key : List ℕ) (uid : ℕ) where
    abbrev here : ℕ → ℕ → RexPacketStream
    here number counter =
        end_at m avx2 default_grid_width default_grid_height refl nonce keys shifts s vn mac_key
          number counter

    -- One chunk: it is written, and read from what is on the socket, and both ends go on alike.
    one_chunk :
        (number counter last : ℕ) (bytes : List ℕ)
        → suc last < 2 ^ 64
        → Sendable codec max_packet_size uid bytes
        → (number' counter' : ℕ) × (written : List ℕ) × (send_tcp prims m kdf avx2 file_sequenced
              codec none obfuscation_key
              (record { uid = uid; code = chunk bytes; seq = 0 })
              (stream (here number counter))
              (counting last)
            ≡ ok (stream (here number' counter'), counting (suc last), written))
          × ((rest : List ℕ)
              → receive_file prims m kdf avx2 codec obfuscation_key max_packet_size
                  (stream (here number counter))
                  last
                  (written ++ rest)
                ≡ ok (received uid (chunk bytes) (stream (here number' counter')) (suc last) rest))
    unfolding send_tcp protect expect unprotect verified numbered_packet receive_file file_end
        decoded_file file_seq_valid Sendable
    one_chunk number counter last bytes fits sendable =
        let next : wrapping_add last 1 ≡ suc last = omega arith in
        let (encoded, is, limit, small) = sendable (suc last) fits in
        let packet : FilePacket = record { uid = uid; code = chunk bytes; seq = suc last } in
        let v = codec.serialize-IsByte packet encoded is in
        let key = key_at avx2 default_grid_width default_grid_height refl nonce keys shifts s vn in
        let masked = mask_bytes key (number * (default_grid_width * default_grid_height)) encoded in
        let sealed = frame m (here number counter) masked in
        let size : length sealed ≡ length encoded + 32 =
          length-frame m (here number counter) masked
          ∙ ap (λ (n : ℕ). n + 32)
              (length-mask_bytes key (number * (default_grid_width * default_grid_height))
                encoded) in
        let decodes : codec.deserialize encoded ≡ some packet =
          ap codec.deserialize (sym (append-nil encoded))
          ∙ codec.deserialize-serialize packet encoded [] is in
        let greater : ltb last (suc last) ≡ true = ground arith in
        (
          number + grids_of default_grid_width default_grid_height (length encoded),
          wrapping_add counter 1,
          transmission_packet sealed,
          rw
              (
                next,
                is,
                seal_lem m avx2 default_grid_width default_grid_height refl nonce keys shifts s vn
                    mac_key number counter encoded v,
              )
              refl,
          λ rest.
              rw
                (
                  read_tcp-transmission_packet prims m kdf avx2 max_packet_size obfuscation_key
                      (stream (here number counter)) sealed rest (omega arith) (omega arith),
                  open_lem m avx2 default_grid_width default_grid_height refl nonce keys shifts s vn
                      mac_key number counter encoded v,
                  decodes,
                  greater,
                )
                refl,
        )

    -- What is left to send when the receiver has taken `last` packets.
    all_chunks :
        (reads : List FileRead) (number counter last sent : ℕ) (rest : List ℕ)
        → last + length (chunks_read reads) < 2 ^ 64
        → All (Sendable codec max_packet_size uid) (chunks_read reads)
        → let count : ℕ = length (chunks_read reads) in
          (final : RexPacketStream) × (written : List ℕ) × (send_file prims m kdf avx2 codec
              obfuscation_key uid reads
              (stream (here number counter))
              (counting last)
              none
              sent
            ≡ ok (
                sent_file
                  (stream final)
                  (last + count)
                  written
                  (progress_of sent (chunks_read reads))))
          × (receive_times count (stream (here number counter)) last (written ++ rest)
              ≡ ok (
                  received_file
                    (map (λ bytes. (uid, chunk bytes)) (chunks_read reads))
                    (stream final)
                    (last + count)
                    rest))
    unfolding send_file receive_times chunks_read plaintext_of sent_before received_before
        progress_of
    all_chunks [] number counter last sent rest fits v = (
      here number counter,
      [],
      ap (λ (k : ℕ). ok (sent_file (stream (here number counter)) k [] [])) {x = last}
          {y = last + 0} (omega arith),
      ap (λ (k : ℕ). ok (received_file [] (stream (here number counter)) k rest)) {x = last}
          {y = last + 0} (omega arith),
    )
    all_chunks (read_error ∷ reads) number counter last sent rest fits v =
        all_chunks reads number counter last sent rest fits v
    all_chunks (bytes_read [] ∷ reads) number counter last sent rest fits v = (
      here number counter,
      [],
      ap (λ (k : ℕ). ok (sent_file (stream (here number counter)) k [] [])) {x = last}
          {y = last + 0} (omega arith),
      ap (λ (k : ℕ). ok (received_file [] (stream (here number counter)) k rest)) {x = last}
          {y = last + 0} (omega arith),
    )
    all_chunks (bytes_read (b ∷ bs) ∷ reads) number counter last sent rest fits v =
        let bytes : List ℕ = b ∷ bs in
        let total_sent : ℕ = wrapping_add sent (length bytes) in
        let count : ℕ = length (chunks_read reads) in
        let (number', counter', written, forth, back) =
          one_chunk number counter last bytes (omega arith) v.0 in
        let (final, written', sent', got') =
          all_chunks reads number' counter' (suc last) total_sent rest (omega arith) v.1 in
        let total : suc last + count ≡ last + suc count = omega arith in
        (
          final,
          written ++ written',
          rw (forth, sent')
              (ap
                (λ (k : ℕ). ok (
                  sent_file (stream final) k (written ++ written')
                    (total_sent ∷ progress_of total_sent (chunks_read reads))))
                total),
          rw (append_assoc written written' rest, back (written' ++ rest), got')
              (ap
                (λ (k : ℕ). ok (
                  received_file ((uid, chunk bytes) ∷ map (λ c. (uid, chunk c)) (chunks_read reads))
                    (stream final) k rest))
                total),
        )

  -- With a grid key of 128 words and any token: a file whose reads up to its end give fewer than 2 ^ 64
  -- chunks, each of which can be encoded within the limit, is sent without a failure, errors of the disk in between
  -- are passed over, and the receiver gets every chunk in its order and nothing else. Both ends have
  -- counted as many packets as there are chunks, their streams are in the same state again, and the
  -- progress that was reported is the number of bytes sent after each chunk, as a 64-bit number.
  pub receive_times-send_file :
      (keys : SharedKeys) (token : List ℕ) (uid : ℕ) (reads : List FileRead)
      → length keys.0 ≡ 128
      → All IsWord keys.0
      → length (chunks_read reads) < 2 ^ 64
      → All (Sendable codec max_packet_size uid) (chunks_read reads)
      → let count : ℕ = length (chunks_read reads) in
        (begin final : RexPacketStream) × (written : List ℕ) × (init_rex_stream prims kdf keys token
          ≡ ok (some begin))
        × (send_file prims m kdf avx2 codec obfuscation_key uid reads
              (stream begin)
              (counting 0)
              none
              0
            ≡ ok (sent_file (stream final) count written (progress_of 0 (chunks_read reads))))
        × (receive_times count (stream begin) 0 written
            ≡ ok (
                received_file
                  (map (λ bytes. (uid, chunk bytes)) (chunks_read reads))
                  (stream final)
                  count
                  []))
  receive_times-send_file keys token uid reads size words fits v =
      let count : ℕ = length (chunks_read reads) in
      let packets : List (ℕ × FilePacketCode) =
        map (λ bytes. (uid, chunk bytes)) (chunks_read reads) in
      let (nonce, round_keys, shifts, s, vn, mac_key, begun) =
        init_rex_stream_lem prims m kdf avx2 keys token size words in
      let begin = here nonce round_keys shifts s vn mac_key uid 0 0 in
      let (final, written, sent, got) =
        all_chunks nonce round_keys shifts s vn mac_key uid reads 0 0 0 0 [] (omega arith) v in
      let all : 0 + count ≡ count = omega arith in
      (
        begin,
        final,
        written,
        begun,
        sent
            ∙ ap
                (λ (k : ℕ).
                  ok (sent_file (stream final) k written (progress_of 0 (chunks_read reads))))
                all,
        ap (receive_times count (stream begin) 0) (sym (append-nil written))
            ∙ got
            ∙ ap (λ (k : ℕ). ok (received_file packets (stream final) k [])) all,
      )
