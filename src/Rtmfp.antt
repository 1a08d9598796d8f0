-- ===== src/Rtmfp.antt =====
-- The RTMFP flows of MonaCore: the fragments that arrive, the messages they make.
pub mod Fragment
pub mod Flow
pub mod Band
pub mod Writer
pub mod Delivery
mod Tests
