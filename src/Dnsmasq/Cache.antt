-- ===== src/Dnsmasq/Cache.antt =====
-- The cache of src/cache.c in http1.0/src/dnsmasq/dnsmasq-2.45. Lru is the doubly linked list of its
-- entries, the youngest first; Chain and Bucket are its hash chains and the choice of one; Find,
-- ByName and Insert are the lookups and the insertion of entries.
pub mod Lru
pub mod Chain
pub mod Bucket
pub mod Find
pub mod ByName
pub mod Insert
