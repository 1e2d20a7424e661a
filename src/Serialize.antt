-- ===== src/Serialize.antt =====
-- common/serialize.h: a growing byte buffer (serialized_buffer.c), writers (serialize.c) and readers
-- (deserialize.c), with the records of serialization_test.c.
pub mod Buffer
pub mod Write
pub mod Read
pub mod Stream
pub mod Person
mod Tests
