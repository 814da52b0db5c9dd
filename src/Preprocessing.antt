-- ===== src/Preprocessing.antt =====
-- src/preprocessing: the filter by transaction-weighted utility, the chunks of a
-- database, and the reader of its lines.
pub mod TwuFilter
pub mod Chunker
pub mod DbReader
mod Tests
