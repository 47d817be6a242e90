-- ===== src/Rules.antt =====
-- internal/rules: the authorization rules, the chain that evaluates them, and what they need to
-- read a request and match paths.
pub mod Verdicts
pub mod Decision
pub mod Chain
pub mod Uri
pub mod Host
pub mod Body
pub mod Canonical
pub mod Matcher
pub mod Expand
pub mod Reqvars
pub mod Sources
pub mod Admin
pub mod Gates
pub mod Mounts
pub mod Builtin
