-- ===== src/Ping.antt =====
-- The ping tool, zping.c: its configuration record and the modules of its parts.
pub mod Checksum
pub mod Time
pub mod Send
pub mod Receive
pub mod Setup
use mydns.Prelude.{ℕ, List, Option}

-- `pconf_t`; `addr` is `addr.sin_addr.s_addr`.
pub record Pconf : Type 0 where
  pub sockfd : Option ℕ
  pub ipaddr : List ℕ
  pub sendnum : ℕ
  pub recvnum : ℕ
  pub datalen : ℕ
  pub addr : ℕ
