-- ===== src/Text.antt =====
-- Rust's text as the program uses it: a `str` is the list of its code points.
pub mod Utf8
pub mod Slices
pub mod Numbers
pub mod Laws
pub mod Ipv4
pub mod Ipv6
pub mod IpAddr
pub mod Written
