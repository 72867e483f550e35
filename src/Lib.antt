-- ===== src/Lib.antt =====
-- WHY2: the REX cipher of the crate in core/src, and parts of the chat programs in chat/src.
--
-- The cipher works on grids of 64-bit cells. A key becomes a grid, the grid's hash seeds the generator
-- that gives the round keys, and counter mode masks each grid of data with the permutation of nonce +
-- counter. The encrypter and the decrypter run this on whole inputs, the stream on parts of one, and
-- the packet adds a tag over nonce and grids.
--
-- Files:
-- - Common and its children: Boolean tests, lists, bit operations and machine words on the native
--   numbers. Words holds `wrapping_add`, the shifts, the rotations and the big-endian bytes.
-- - Core/Consts, Core/Gf: core/src/consts and core/src/gf.rs (`xtime`).
-- - Core/Outcome: the ways in which a call ends. `ok` and `err` are `Result`, `panic` is a failed
--   assertion, an index out of range or a division by zero.
-- - Core/Grid: core/src/grid.rs. `Grid` holds the rows, and the const parameters W and H are the
--   arguments `w` and `h`; `IsGrid w h` is what the Rust type says of the value. `new`, `from_key`,
--   `from_bytes`, `from_flat` and `to_flat` stand in this file, the others in Grid/Xor (`xor_grids`),
--   Grid/Increment (both builds of `increment`), Grid/Subcell (the scalar body and the two vector
--   bodies), Grid/Shift (both builds of `shift_rows`) and Grid/Mix (`mix_columns`, whose macros are
--   functions over what a lane is). The further children hold the theorems, named for what they prove.
-- - Core/Crypto: core/src/crypto.rs. `permute` and `keystream` are the two halves of
--   `keystream_block`, `push_keys` is the loop of `generate_round_keys`, and `each_grid` is the loop
--   of `apply_ctr_with_shifts`. Crypto/Keystream, Counter, Ctr and Schedule hold the theorems.
-- - Core/Types, Core/Encrypter, Core/Decrypter: core/src/types.rs, encrypter.rs and decrypter.rs. A
--   string is its list of code points.
-- - Core/Stream: core/src/stream.rs. The state is passed on from call to call; `start` is `new`, and
--   `update` is composed of `fill_buffer` and `full_grids`, and `flush` is what both calls do with the
--   buffer. Stream/Positions is the specification: every
--   cell is masked with the keystream cell of its position.
-- - Core/Auth: core/src/auth.rs. `open_packet` is `AuthenticatedPacket::open`, `to_bytes` the
--   conversion to bytes and `try_from` its inverse.
-- - Chat/Input: chat/src/bin/client/tui/input.rs. `end_of_line` is `end`, `take_line` is `take`, and
--   `search_up`, `recall_up` and `recall_down` are the parts of `history_up` and `history_down` that
--   look for an entry and show it. Input/Operations takes any sequence of operations.
-- - Chat/Bans: chat/src/config/bans.rs, on the two lists as values.
-- - Chat/Crypto: chat/src/crypto/mod.rs. `open_sealed` is `RexPacketStream::open`, `packet_mac` is
--   `mac`, and `pass` is what `seal` and `open` both do to the bytes. `expect`, `expect_ok` and
--   `attempt` are `expect` on an option, `expect` on a result and `.ok()?`. Crypto/Disk holds the keys
--   and tags of files, Crypto/Pass the lemma that a packet's bytes are masked with the bytes of the
--   keystream, Crypto/Session whole streams.
-- - Chat/Network: chat/src/network/mod.rs. `transmission_packet` is the framing of `send_tcp`;
--   `read_len`, `read_rest` and `unprotect` are the three parts of `read_tcp`. Network/Receive holds the
--   checks of `receive` (`check_packet`, composed of `check_spam`, `check_rate` and `check_seq`) and
--   `take_credit` of chat/src/network/server/connection.rs, Network/Text the control characters.
--   Network/Replay is the step relation of the packets that one connection accepts.
-- - Chat/Files: chat/src/network/file/mod.rs. `chunk` is `FilePacketCode::Data`. Files/Transfer sends a
--   file over an auxiliary socket.
-- - Chat/Uploads: chat/src/network/file/server.rs, the uploads that are kept under their hash. `take_chunk`
--   is one round of the loop of `download`, `receive_upload` the loop. Uploads/Chunks says which chunks a
--   file is found in again, Uploads/Stored composes the upload and `read_image`.
-- - Chat/Misc: chat/src/misc.rs, the headers of pictures and the digits of hashes. `pair_value` is
--   `u8::from_str_radix` on two bytes.
-- - Chat/Clips: chat/src/network/voice/message.rs.
-- - Chat/Voice: chat/src/network/voice/server.rs, the loop of `listen_client_voice`. `police` is what it does
--   before it looks at the code of a packet, Voice/Relay what it sends on the code. `Session` is `Connection`,
--   `Slot` an entry of `CONNECTIONS`. Voice/Police takes the packets of one session in any sequence.
-- - Chat/Cache: chat/src/cache.rs, on a directory as a list of files.
-- - Tests and its children: concrete values, and the theorems applied to them.
--
-- Parameters: SHA-256 and ChaCha20 are the operations of `Primitives`, with the only laws that a fill
-- gives as many values as asked and that they are 64-bit words; HMAC-SHA256 is the operation of `Mac`,
-- whose tag has 32 bytes; HKDF-SHA256 is the operation of `Hkdf`, which gives as many bytes as asked up to
-- 8160, and wincode those of `Codec`, which reads back what it wrote, whatever follows. The arithmetic of
-- `f32` is the operations of `Float32`, of which nothing is supposed. What the system generator gives is an argument of the calls that use it, and
-- so is `avx2`, what the processor says of itself.
--
-- Bounds and fuel: a cell is its 64-bit pattern, so signed and unsigned operations agree except for the
-- right shift, which is written out (`sar`). Block counters wrap at 2 ^ 64 as in a release build. The
-- loops over columns (`mix_loop`) and over strides (`barrel`) run on `w` rounds of fuel, which is enough
-- because each round advances by at least one column or doubles the stride; the theorems on
-- `mix_columns` and `shift_rows_ct` state what is computed with this fuel. `highest` takes 64 rounds,
-- one for each bit. Grids with 2 ^ 64 cells or more do not fit a machine, and the theorems that need
-- this have it as a hypothesis.
--
-- Not modelled: erasure of memory, the formatting of grids and errors, constant time as such, the order
-- in which parallel iterations run (each works on its own grid), and the state that a failed call of a
-- stream leaves behind; the rendering of the input line; sockets that fail to write, files that cannot be written, and the list of
-- connections beside the one that a packet came on; the other parts of the chat programs. Rejected
-- packets end a transfer or a connection, so what would be read after them is not modelled.
mod Common
pub mod Core
pub mod Chat
mod Tests
