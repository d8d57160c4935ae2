-- ===== src/Auth.antt =====
-- mypalace/auth: which scope a route wants, the keys, and the middleware.
pub mod Scopes
pub mod Tenant
pub mod Context
pub mod Keys
pub mod Middleware
pub mod Tests
