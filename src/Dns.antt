-- ===== src/Dns.antt =====
-- The stub resolver, http1.0/src/zdns.c (zdns_v1.0.c beside it is the same text).
pub mod Labels
pub mod Format
pub mod ReadName
pub mod Answers
pub mod RoundTrip
pub mod Resolver
