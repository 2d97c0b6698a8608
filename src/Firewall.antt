-- ===== src/Firewall.antt =====
-- rushtle/src/firewall/: the redirection of local traffic to the client's listeners.
pub mod System
pub mod Api
pub mod Linux
pub mod Macos
