-- ===== src/Fat16.antt =====
-- fs/fat16.c and include/fat16.h, the file system: sector 50 holds the allocation table, sector 68
-- the root directory, and cluster `c` is sector `98 + c`.
pub mod Layout
pub mod Views
pub mod Volume
pub mod Directory
pub mod Table
pub mod Chains
pub mod Release
pub mod Entries
pub mod NewEntry
pub mod Placement
pub mod Stored
pub mod Saved
pub mod Removed
pub mod Search
mod Tests
mod Examples
pub mod Contents
pub mod Write
pub mod DirectoryName
pub mod Padded
pub mod NewDirectory
pub mod Entered
pub mod ReadBack
pub mod Files
pub mod Listing
pub mod Listed
pub mod Dummy
