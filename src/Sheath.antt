-- ===== src/Sheath.antt =====
-- sheath.cpp: the session with its torrents.
pub mod Status
pub mod Library
pub mod Alerts
pub mod Shutdown
pub mod Ending
pub mod Outstanding
pub mod Drained
pub mod Handles
pub mod Adding
pub mod Control
pub mod Query
pub mod Synced
pub mod Api
pub mod Loop
