-- ===== src/Witness.antt =====
-- The theorems at concrete inputs.
pub mod Samples
pub mod Api
pub mod Parts
pub mod Session
pub mod Adding
pub mod Values
pub mod Toggle
pub mod Typed
pub mod Startup
pub mod Ending
pub mod Patch
pub mod Codec
pub mod InStep
pub mod Resumed
