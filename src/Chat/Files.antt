-- ===== src/Chat/Files.antt =====
-- chat/src/network/file/mod.rs: files on an auxiliary socket. What `File::read` gives is a list of
-- reads, after which the file is at its end.
pub mod Transfer
use why.Common.{
  ℕ, zero, suc, ◌+◌, ◌*◌, ◌≤◌, ◌≡◌, Bool, true, false, ◌||◌, ltb, ◌==◌, if◌then◌else◌, Option, none,
  some, List, [], ◌∷◌, ◌++◌, length, IsWord, All, wrapping_add,
}
use why.Core.Outcome.{Outcome, ok, ◌>>=◌}
use why.Core.Consts.{default_grid_width, default_grid_height}
use why.Core.Crypto.{Primitives}
use why.Core.Auth.{Mac}
use why.Core.Stream.{RexStream}
use why.Chat.Crypto.{Hkdf, RexPacketStream, expect_ok, pass}
use why.Chat.Network.{
  Codec, SequencedPacket, EncryptionMode, stream, Counter, ReadEnd, payload, unverified, closed,
  over_limit, send_tcp, read_tcp,
}

pub data UploadKind : Type 0 where
  file : UploadKind
  image : UploadKind
  avatar : UploadKind
  icon : UploadKind
  voice : UploadKind

unfoldable pub persistent : UploadKind → Bool
persistent file = false
persistent image = true
persistent avatar = true
persistent icon = true
persistent voice = true

-- `FilePacketCode`, where `chunk` is `Data`.
pub data FilePacketCode : Type 0 where
  chunk : List ℕ → FilePacketCode
  metadata : ℕ → List ℕ → List ℕ → FilePacketCode

pub record FilePacket : Type 0 where
  pub uid : ℕ
  pub code : FilePacketCode
  pub seq : ℕ

abbrev pub file_sequenced : SequencedPacket FilePacket
file_sequenced = record {
  seq = λ p. p.seq;
  set_seq = λ p seq. record { uid = p.uid; code = p.code; seq = seq };
}

-- One `read` of the file: some bytes, of which none mean its end, or an error, which the loop ignores.
pub data FileRead : Type 0 where
  bytes_read : List ℕ → FileRead
  read_error : FileRead

-- The chunks up to the end of the file.
unfoldable pub chunks_read : List FileRead → List (List ℕ)
chunks_read [] = []
chunks_read (bytes_read [] ∷ reads) = []
chunks_read (bytes_read (b ∷ bytes) ∷ reads) = (b ∷ bytes) ∷ chunks_read reads
chunks_read (read_error ∷ reads) = chunks_read reads

-- What is sent of a chunk: the server decrypts it with the stream of the disk, the client has none.
unfoldable pub plaintext_of : Bool → Option RexStream → List ℕ → Outcome (Option RexStream × List ℕ)
plaintext_of avx2 none bytes = ok (none, bytes)
plaintext_of avx2 (some disk_stream) bytes = do
  passed ← expect_ok (pass avx2 default_grid_width default_grid_height disk_stream bytes)
  ok (some passed.0, passed.1)

-- What the loop of `send_file` leaves: the modes and counters, the bytes on the socket, and the
-- progress that was reported.
pub record SentFile : Type 0 where
  pub mode : EncryptionMode
  pub seq : Counter
  pub disk_stream : Option RexStream
  pub written : List ℕ
  pub progress : List ℕ

-- A packet before the ones that were sent after it.
unfoldable pub sent_before : List ℕ → ℕ → SentFile → SentFile
sent_before bytes sent after = record {
  mode = after.mode;
  seq = after.seq;
  disk_stream = after.disk_stream;
  written = bytes ++ after.written;
  progress = sent ∷ after.progress;
}

-- How `receive_file` ends. `refused` is every other `None`, after which the caller ends the transfer.
pub data FileEnd : Type 0 where
  received : ℕ → FilePacketCode → EncryptionMode → ℕ → List ℕ → FileEnd
  refused : FileEnd
  undecodable : FileEnd

-- The rule of the sequence numbers of a transfer.
unfoldable pub file_seq_valid : ℕ → ℕ → Bool
file_seq_valid last seq = ltb last seq || last == 0

unfoldable pub decoded_file : ℕ → EncryptionMode → List ℕ → Option FilePacket → FileEnd
decoded_file last mode rest none = undecodable
decoded_file last mode rest (some packet) =
    if file_seq_valid last packet.seq
    then received packet.uid packet.code mode packet.seq rest
    else refused

unfoldable pub file_end : Codec FilePacket → ℕ → ReadEnd → FileEnd
file_end codec last (payload mode bytes rest) =
    decoded_file last mode rest (codec.deserialize bytes)
file_end codec last (unverified mode rest) = refused
file_end codec last closed = refused
file_end codec last over_limit = refused

module _ (prims : Primitives) (m : Mac) (kdf : Hkdf) (avx2 : Bool) (codec : Codec FilePacket)
    (obfuscation_key : List ℕ) where
  unfoldable pub send_file :
      ℕ → List FileRead → EncryptionMode → Counter → Option RexStream → ℕ → Outcome SentFile
  send_file uid [] mode seq disk_stream sent =
      ok (record { mode = mode; seq = seq; disk_stream = disk_stream; written = []; progress = [] })
  send_file uid (read_error ∷ reads) mode seq disk_stream sent =
      send_file uid reads mode seq disk_stream sent
  send_file uid (bytes_read [] ∷ reads) mode seq disk_stream sent =
      ok (record { mode = mode; seq = seq; disk_stream = disk_stream; written = []; progress = [] })
  send_file uid (bytes_read (b ∷ bytes) ∷ reads) mode seq disk_stream sent =
      let total : ℕ = wrapping_add sent (length (b ∷ bytes)) in
      plaintext_of avx2 disk_stream (b ∷ bytes) >>= λ plaintext.
      send_tcp prims m kdf avx2 file_sequenced codec none obfuscation_key
        (record { uid = uid; code = chunk plaintext.1; seq = 0 }) mode seq
      >>= λ packet. send_file uid reads packet.0 packet.1 plaintext.0 total >>= λ after.
          ok (sent_before packet.2 total after)

  unfoldable pub receive_file : ℕ → EncryptionMode → ℕ → List ℕ → Outcome FileEnd
  receive_file max_packet_size mode last input = do
    read ← read_tcp prims m kdf avx2 max_packet_size obfuscation_key mode input
    ok (file_end codec last read)
