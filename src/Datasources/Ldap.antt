-- ===== src/Datasources/Ldap.antt =====
-- internal/datasources/ldap: the provider that asks a directory, over a pool of connections.
pub mod Pool
pub mod Dial
pub mod Filter
pub mod Provider
pub mod Outage
