-- ===== src/Http.antt =====
-- The HTTP/1.0 client, http1.0/src/zhttp.c.
pub mod Search
pub mod Send
pub mod Download
pub mod Request
