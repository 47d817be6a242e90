-- ===== src/Datasources.antt =====
-- internal/datasources: the cache in front of each provider, what the set of providers lets through
-- to them, how a set is made, and the provider that asks a directory.
pub mod Cache
pub mod Inputs
pub mod Names
pub mod Callers
pub mod Registry
pub mod Ldap
