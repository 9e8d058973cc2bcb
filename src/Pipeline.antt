-- ===== src/Pipeline.antt =====
-- pipeline.py: `InsightKit`, its method `ask` and what follows from it.
pub mod Types
pub mod Kit
pub mod Attempts
pub mod Finish
pub mod Analysis
pub mod Ask
pub mod Trace
pub mod Untouched
pub mod Safety
pub mod AuditTrail
pub mod Costs
pub mod Sources
pub mod Repeat
