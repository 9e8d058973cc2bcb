-- ===== src/Api.antt =====
-- The HTTP application, api/app.py.
pub mod Stream
pub mod Routes
