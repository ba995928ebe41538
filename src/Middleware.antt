-- ===== src/Middleware.antt =====
-- The middleware of beatstream/internal/middleware, but the limits.
pub mod Jwt
pub mod Access
pub mod Cors
pub mod Origins
pub mod Audit
pub mod Logging
pub mod Stamps
mod Tests
