-- ===== src/Examples.antt =====
-- The theorems at concrete inputs.
pub mod Setup
pub mod Paths
pub mod Chains
pub mod Sources
pub mod Traffic
pub mod Names
pub mod Ldap
pub mod Configs
pub mod Serve
pub mod Launching
