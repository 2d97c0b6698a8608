-- ===== src/Tests.antt =====
-- Runs of the model on concrete inputs.
pub mod Wire
pub mod Probing
pub mod Loops
pub mod Tables
pub mod Firewall
pub mod Forwarding
