-- ===== src/PacketSync/Refinement.antt =====
-- src/PacketSync.cpp finds the frames of the stream, in whatever pieces the bytes arrive.
pub mod Invariant
pub mod Finish
pub mod Collect
pub mod Begin
pub mod Search
pub mod Round
pub mod Loop
