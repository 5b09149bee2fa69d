-- ===== src/Russe/Decoding.antt =====
-- How `decode` of russe/src/decoder.rs takes an event apart, line by line.
pub mod Delimiter
pub mod Fields
