-- ===== src/Firewall.antt =====
-- The packet filter of the gateway, firewall/zmfilter.c.
pub mod Address
pub mod Verdict
pub mod Jhash
pub mod Fdb
pub mod Wfrom
