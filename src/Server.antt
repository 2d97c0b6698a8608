-- ===== src/Server.antt =====
-- rushtle/src/server.rs: the in-pod side of the tunnel.
pub mod Hosts
pub mod Bootstrap
pub mod Loop
pub mod Dns
pub mod Resolvers
pub mod Session
