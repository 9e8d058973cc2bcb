-- ===== src/Cache.antt =====
-- cache.py: the query cache, a table of the meta database. The clock is an argument, in
-- microseconds; `json.dumps` and `json.loads` of a payload are parameters, and so is SHA-256.
pub mod Store
pub mod Lifetime
pub mod Volatile
