-- ===== src/Api.antt =====
-- The libraries that the bindings call and that are no part of them, as interfaces: a record of
-- operations, and a record of what their manuals promise.
pub mod Lua
pub mod Kcp
