-- ===== src/Ssnet.antt =====
-- rushtle/src/ssnet.rs: the ssnet wire protocol.
pub mod Cmd
pub mod Frame
pub mod Tasks
pub mod Carried
pub mod Sync
pub mod Connect
pub mod Udp
