-- ===== src/Proto/RoundTrip.antt =====
-- Core/src/proto.cpp: what ProtoIn reads of the bytes that ProtoOut wrote.
pub mod Reads
pub mod Heads
pub mod Numbers
pub mod Integers
pub mod Signed
pub mod Unsigned
pub mod Strings
pub mod Lists
pub mod Maps
pub mod Bytes
pub mod Codecs
pub mod Floats
pub mod Skips
pub mod Fields
pub mod Structs
