-- ===== src/Proto.antt =====
-- Core/src/proto.h and Core/src/proto.cpp: tagged values.
pub mod Types
pub mod Stream
pub mod Out
pub mod In
mod Endless
pub mod RoundTrip
pub mod Display
mod Tests
mod SkipTests
