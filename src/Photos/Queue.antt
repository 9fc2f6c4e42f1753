-- ===== src/Photos/Queue.antt =====
-- `UploadQueue` of apps/web/src/features/photos/uploader.ts.
pub mod State
pub mod Process
pub mod Actions
pub mod Tasks
pub mod Frame
pub mod Neutral
pub mod Steps
pub mod Active
pub mod Bounded
pub mod Concurrency
pub mod Pumping
pub mod Lease
pub mod Retrying
pub mod Failing
pub mod Answered
pub mod Overlap
pub mod Resolving
mod Tests
