-- ===== src/Gallery.antt =====
-- The public gallery: apps/web/src/features/gallery.
pub mod Variant
pub mod UrlCache
pub mod Batch
pub mod Unlock
pub mod Api
pub mod Viewer
mod Tests
