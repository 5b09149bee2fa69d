-- ===== src/Middleware/Wrappers.antt =====
-- The middleware of actix-web-lab that wraps the future of a service.
pub mod Sequence
pub mod ErrorHandlers
pub mod MapResponse
pub mod MapResponseBody
pub mod Panics
mod Tests
