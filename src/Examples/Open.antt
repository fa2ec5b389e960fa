-- ===== src/Examples/Open.antt =====
-- The registration of the libraries on the stand-ins.
use lua_kcp_skynet.Prelude.{ℕ, replicate, true, [], ◌∷◌, none, some, ◌≡◌, refl}
use lua_kcp_skynet.Outcome.{ok}
use lua_kcp_skynet.Api.Lua.{other, recv_buffer, kcp_lua_recv_buffer}
use lua_kcp_skynet.Machine.{front}
use lua_kcp_skynet.Machine.Open.{Tables}
use lua_kcp_skynet.Addresses
use lua_kcp_skynet.Lkcp.{World, recv_buffer_len}
use lua_kcp_skynet.Lkcp.Safety.Sound.{Sound}
use lua_kcp_skynet.Lkcp.Open.{luaopen_lkcp, luaopen_lkcp-Sound}
use lua_kcp_skynet.Lkcpsn.Open.{luaopen_lkcpsn, luaopen_lkcpsn-ready, pack_code}
use lua_kcp_skynet.Examples.Vm.{Vm, machine, machine-IsLawful}
use lua_kcp_skynet.Examples.Loopback.{loopback}
use lua_kcp_skynet.Examples.Lkcp.{no_connection}

abbrev tables : Tables
tables = record { kcp_meta = other 1; buffer_meta = other 2; library = other 3 }

luaopen_lkcp-Sound_example :
    (w' : World machine loopback) × (luaopen_lkcp tables 1 (no_connection []) ≡ ok 1 w')
    × Sound w'
    × (machine.field w'.vm kcp_lua_recv_buffer ≡ recv_buffer)
    × (machine.slots w'.vm 1 ≡ other 1 ∷ other 2 ∷ other 3 ∷ [])
    × (machine.references w'.vm ≡ machine.references (no_connection []).vm)
luaopen_lkcp-Sound_example =
    luaopen_lkcp-Sound machine-IsLawful tables 1 (no_connection []) refl refl

-- A service that has not required the binding yet, in a process where no other has.
abbrev first : Addresses.World machine loopback
first = record {
  vm = record { stacks = λ t. []; refs = []; fields = λ k. other 0; alive = λ t. true };
  kcps = [];
  callbacks = [];
  buffer = record { size = 2; bytes = 7 ∷ 8 ∷ [] };
  statics = record { addresses = []; ll = none; svrsock = 0; sent = [] };
}

luaopen_lkcpsn-ready_example :
    (w' : Addresses.World machine loopback) × (m : Vm) × (luaopen_lkcpsn tables 1 first ≡ ok 1 w')
    × (w'.statics.ll ≡ some m)
    × (first.statics.ll ≡ none → (m ≡ machine.new_state pack_code) × (machine.slots m 0 ≡ []))
    × ((m' : Vm) → first.statics.ll ≡ some m' → m ≡ m')
    × (w'.buffer.size ≡ recv_buffer_len)
    × ((n : ℕ) → front w'.buffer n ≡ replicate n 0)
    × (machine.field w'.vm kcp_lua_recv_buffer ≡ recv_buffer)
    × (machine.slots w'.vm 1 ≡ other 1 ∷ other 2 ∷ other 3 ∷ [])
    × (w'.kcps ≡ [])
    × (w'.callbacks ≡ [])
    × (w'.statics.addresses ≡ [])
    × (w'.statics.svrsock ≡ 0)
luaopen_lkcpsn-ready_example = luaopen_lkcpsn-ready machine-IsLawful tables 1 first
