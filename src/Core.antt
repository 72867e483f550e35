-- ===== src/Core.antt =====
-- core/src: the REX cipher, one module for each file of the crate.
pub mod Outcome
pub mod Consts
pub mod Gf
pub mod Grid
pub mod Crypto
pub mod Types
pub mod Encrypter
pub mod Decrypter
pub mod Stream
pub mod Auth
