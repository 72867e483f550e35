-- ===== src/Chat.antt =====
-- chat/src: the parts of the chat client and server.
pub mod Input
pub mod Bans
pub mod Crypto
pub mod Network
pub mod Files
pub mod Cache
pub mod Uploads
pub mod Misc
pub mod Clips
pub mod Voice
