-- ===== src/Web.antt =====
-- apps/web/lib: what the web application counts.
pub mod RateLimit
pub mod Lockout
