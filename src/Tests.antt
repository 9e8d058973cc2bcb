-- ===== src/Tests.antt =====
-- Runs of the model at concrete inputs, and the theorems applied there.
mod Sql
mod Mongo
mod Access
mod Api
mod Llm
mod Prompt
mod Stores
mod Examples
mod Catalogue
mod Engines
mod Backends
mod Documents
mod Pipeline
mod Tables
mod Executor
