-- ===== src/Middleware.antt =====
-- The packages below middleware/.
pub mod Recovery
pub mod Gzip
pub mod Ratelimit
pub mod Etag
pub mod Csrf
pub mod Brotli
pub mod RequestId
pub mod Security
pub mod Cors
pub mod BasicAuth
pub mod CookieAuth
pub mod Logger
pub mod Flash
pub mod Jwt
