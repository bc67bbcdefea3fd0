-- ===== src/Common.antt =====
-- iotronic/common: the hash ring.
pub mod HashRing
pub mod Policy
