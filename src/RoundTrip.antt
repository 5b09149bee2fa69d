-- ===== src/RoundTrip.antt =====
-- The server's encoder (actix-web-lab/src/sse.rs) against the client's decoder
-- (russe/src/decoder.rs): what is written is read back, event by event.
mod Reading
mod Writes
mod Stream
mod Faults
pub mod EndToEnd
mod Tests
