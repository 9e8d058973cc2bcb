-- ===== src/Access.antt =====
-- Who may call the HTTP API: api/auth.py, security/users.py and api/metrics.py.
pub mod Limiter
pub mod Users
pub mod Auth
pub mod Gate
pub mod Keys
pub mod Metrics
pub mod Snapshot
