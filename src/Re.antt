-- ===== src/Re.antt =====
-- Python's `re` on the fragment that the program's patterns use: syntax, matcher, meaning, and the
-- functions `search`, `sub` and `finditer`.
pub mod Syntax
pub mod Matcher
pub mod Language
pub mod Sound
pub mod Complete
pub mod Scan
