-- ===== src/Fs/Fat.antt =====
-- The FAT32 driver, src/fs/fat32.cpp.
pub mod Names
pub mod ShortNames
pub mod LongNames
pub mod NameTests
pub mod Volume
pub mod Table
pub mod Words
pub mod Reading
pub mod Copies
pub mod Writing
pub mod Recording
pub mod Allocation
pub mod Release
pub mod Chains
pub mod Files
pub mod Following
pub mod Windows
pub mod Runs
pub mod Fills
pub mod ClusterBytes
pub mod Stored
pub mod Ranges
pub mod FileReads
pub mod WholeFiles
pub mod WholeReads
pub mod TableTests
pub mod FileTests
