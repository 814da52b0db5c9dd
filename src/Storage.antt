-- ===== src/Storage.antt =====
-- src/storage: pages with a header and a checksum, kept one to a file.
pub mod PageLayout
pub mod PageHeaderBytes
pub mod Disk
pub mod ChunkStore
pub mod FileChunkStore
pub mod PageFile
pub mod WriteRead
pub mod PageIds
pub mod Fixtures
mod Tests
