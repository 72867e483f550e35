-- ===== src/Tests.antt =====
-- Concrete values of the cipher, and the theorems applied to them.
mod Fixtures
mod Constants
mod Grids
mod Rounds
mod Ciphers
mod Streams
mod Uploads
pub mod Clips
mod Misc
mod Voice
mod Packets
mod Crypto
mod Codecs
mod Network
mod Cache
mod Input
mod Bans
