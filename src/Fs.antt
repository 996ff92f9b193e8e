-- ===== src/Fs.antt =====
-- Files and blocks: the RAM file system, the registry of block devices, and FAT32.
pub mod Ramfs
pub mod RamfsLookup
pub mod Block
pub mod BlockBounds
pub mod Tests
pub mod Fat
