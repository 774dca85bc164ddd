-- ===== src/Fix.antt =====
-- src/fix: frames and messages, the codec, and a session: its checks, its sequence numbers, the identifiers
-- of a client's orders, the requests, and the writer.
pub mod Messages
pub mod Frames
pub mod Headers
pub mod Business
pub mod Codec
pub mod Sequences
pub mod WireIds
pub mod Writer
