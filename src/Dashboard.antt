-- ===== src/Dashboard.antt =====
-- What the pages of the dashboard compute from the data of the API: events, billing, devices and
-- analytics of apps/web/src/features.
pub mod Expiry
pub mod Plans
pub mod Devices
pub mod Analytics
mod Tests
