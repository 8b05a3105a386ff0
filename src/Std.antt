-- ===== src/Std.antt =====
-- What the Go standard library does for this code: base64 and line splitting over byte strings.
pub mod Base64
pub mod Lines
pub mod Paths
pub mod Numbers
pub mod Files
