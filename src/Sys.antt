-- ===== src/Sys.antt =====
-- cwrap/sys_arch.c: the operating system layer, its timers and its mailboxes.
pub mod Mbox
pub mod Queue
pub mod Timer
pub mod Order
pub mod Expire
pub mod Wrap
pub mod Lock
pub mod Passes
pub mod History
mod Tests
