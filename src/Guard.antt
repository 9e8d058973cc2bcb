-- ===== src/Guard.antt =====
-- security/guard.py: read-only enforcement, row limits, blocked tables, PII masking, and the
-- MongoDB pipelines.
pub mod Sql
pub mod Keywords
pub mod ReadOnly
pub mod Statement
pub mod LimitClause
pub mod RowLimit
pub mod Identifiers
pub mod Tables
pub mod Qualified
pub mod Validate
pub mod Pii
pub mod Mongo
pub mod MongoKeys
pub mod MongoSafe
