-- ===== src/Cursor.antt =====
-- The byte cursor that egg-types/src/lib.rs and egg-net/src/protocol.rs each declare, over the
-- error type of either. A cursor holds its position and the bytes from there on, `buf[pos..]`;
-- the program reads the buffer in no other way. A `usize` is a number: no position passes the
-- length of a buffer.
pub mod Base
pub mod Reads
