-- ===== src/Wamp.antt =====
-- iotronic/wamp: what the wamp agent does when boards come and go.
pub mod Sessions
pub mod AllowList
