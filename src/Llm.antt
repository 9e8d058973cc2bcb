-- ===== src/Llm.antt =====
-- llm/: the client's retries, the plans that it returns, and the choice of the model.
pub mod Client
pub mod Retries
pub mod SqlGen
pub mod Plans
pub mod Router
pub mod Intent
pub mod Trim
pub mod Prompt
pub mod Tables
