-- ===== src/Delta.antt =====
-- src/util/delta.cpp: a delta turns the bytes of an old buffer into those of a new one.
pub mod Bytes
pub mod Format
pub mod Encode
pub mod Decode
pub mod Buffer
pub mod Apply
pub mod Splice
pub mod Regions
pub mod Whole
pub mod Roundtrip
mod Tests
