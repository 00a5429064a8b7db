-- ===== src/Sstable.antt =====
-- src/sstable/: the table files.
pub mod Bloom
pub mod Block
pub mod Index
pub mod Builder
pub mod Table
pub mod Cache
pub mod Reader
