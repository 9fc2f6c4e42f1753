-- ===== src/Events.antt =====
-- The events of a photographer: apps/web/src/features/events.
pub mod Api
pub mod Schema
pub mod Format
pub mod Export
mod Tests
