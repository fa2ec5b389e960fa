-- ===== src/Lkcp/Safety.antt =====
-- Memory safety of lkcp.c: what holds of the blocks between two calls, and that no method breaks it.
pub mod Sound
pub mod Serves
pub mod Methods
pub mod Isolation
pub mod Gc
pub mod Create
pub mod Blocks
pub mod Calls
pub mod Trace
