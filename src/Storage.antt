-- ===== src/Storage.antt =====
-- The storage layer (src/storage).
pub mod Config
pub mod Disk
pub mod Bytes
pub mod Bitmap
pub mod Extents
pub mod IamPage
pub mod IamManager
pub mod DiskManager
pub mod SlottedPage
pub mod Tuple
mod Tests
