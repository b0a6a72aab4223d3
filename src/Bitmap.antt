-- ===== src/Bitmap.antt =====
-- Lab2/pintos/src/lib/kernel/bitmap.c.
mod Digits
pub mod Ops
pub mod Values
pub mod Ranges
pub mod Scans
mod Examples
