-- ===== src/Dnsmasq.antt =====
-- The name server that the repository carries in full, http1.0/src/dnsmasq/dnsmasq-2.45: the parts
-- of src/util.c and src/rfc1035.c that read, write and compare names and messages, and the cache of
-- src/cache.c.
pub mod Names
pub mod Extract
pub mod Skip
pub mod Pseudo
pub mod Arpa
pub mod Rand
pub mod Cache
pub mod Hex
pub mod Request
