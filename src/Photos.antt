-- ===== src/Photos.antt =====
-- The photo upload feature: apps/web/src/features/photos.
pub mod Schema
pub mod Errors
pub mod Parts
pub mod Registry
pub mod Pool
pub mod Item
pub mod Multipart
pub mod Transport
pub mod Queue
pub mod Api
pub mod View
pub mod Dropzone
mod Tests
