-- ===== src/Client.antt =====
-- rushtle/src/client.rs: the local side of the tunnel.
pub mod Channels
pub mod Probe
pub mod Link
pub mod Subnets
pub mod Forward
pub mod Run
