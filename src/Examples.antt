-- ===== src/Examples.antt =====
-- Runs of the bindings: small stand-ins for Lua and KCP that obey the interfaces' laws, and the
-- theorems at concrete states.
mod Vm
mod Loopback
mod Lkcp
mod Calls
mod Lutil
mod Lkcpsn
mod Open
mod Update
mod Isolation
mod Trace
mod Sessions
mod Together
