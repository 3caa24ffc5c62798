-- ===== src/Rdap.antt =====
-- internal/rdap: the expiry of domain registrations.
pub mod Looker
pub mod Enrich
pub mod Through
pub mod Cache
pub mod FileCache
pub mod Client
