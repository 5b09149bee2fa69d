-- ===== src/Middleware.antt =====
-- The middleware of actix-web-lab that decides whether and how a request goes on.
pub mod NormalizePath
pub mod Redirects
pub mod LoadShed
pub mod Wrappers
