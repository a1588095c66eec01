-- ===== src/Varlen.antt =====
-- include/spscring/varlen_writer.hpp, varlen_reader.hpp, internal/varlen_header.hpp,
-- message_meta.hpp and reserve_result.hpp: a ring of messages of any length, each behind a header
-- that tells its size.
pub mod Header
pub mod Writer
pub mod Reader
pub mod Align
pub mod Layout
pub mod Chain
pub mod Valid
pub mod Padding
pub mod Reserve
pub mod Reserved
pub mod Send
pub mod Deliver
pub mod Empty
pub mod Receive
pub mod Exchange
pub mod Commit
pub mod Copy
pub mod Spin
pub mod Names
pub mod Blocking
pub mod Threads
mod Tests
