-- ===== src/Service.antt =====
-- The URL shortener (service/).
pub mod Alias
pub mod Db
pub mod Urls
pub mod Accounts
pub mod Analytics
pub mod Redirect
pub mod Limiter
pub mod Handlers
