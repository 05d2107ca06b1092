-- ===== src/Auth.antt =====
-- Authentication and requests: web/src/lib/auth-service.ts, web/src/lib/api.ts,
-- web/src/lib/route-guards.ts, web/src/hooks/useAuth.ts and web/src/hooks/useConfig.ts.
pub mod Platform
pub mod Cookies
pub mod Config
pub mod Session
pub mod Refresh
pub mod Api
pub mod Login
pub mod Pages
pub mod Routes
pub mod Examples
