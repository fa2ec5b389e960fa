-- ===== src/Machine/Open.antt =====
-- What luaopen_lkcp and luaopen_lkcpsn have in common: the registration of the functions, and the
-- receive buffer in the registry.
use mathlib.Core.List.{append_assoc}
use lua_kcp_skynet.Prelude.{
  ℕ, zero, suc, ◌-◌, arith, take, replicate, ap, ◌++◌, [], ◌∷◌, ◌≡◌, refl, ◌∙◌,
}
use lua_kcp_skynet.Outcome.{Cmd, ok, ◌>>◌, pure}
use lua_kcp_skynet.Api.Lua.{Bytes, Value, recv_buffer, Key, kcp_lua_recv_buffer, LuaApi}
use lua_kcp_skynet.Api.Lua
use lua_kcp_skynet.Api.Kcp.{KcpApi}
use lua_kcp_skynet.Machine.{Machine, push, on_vm, front}

-- The tables that Lua makes of the registered functions: the metatable of connections, which leads
-- to `lkcp_methods` and `kcp_gc`, that of the buffer, and the library with `lkcp_create`.
pub record Tables : Type 0 where
  pub kcp_meta : Value
  pub buffer_meta : Value
  pub library : Value

module _ {L : LuaApi} {K : KcpApi} {Cb S : Type 0} where
  -- lua_setfield(L, LUA_REGISTRYINDEX, k)
  unfoldable pub set_registry : ℕ → Key → Cmd (Machine L K Cb S) (Unit {0})
  set_registry t k = on_vm (L.set_field t k)

  -- A new userdata of the given size, all zero: from here on, the receive buffer of the service that
  -- runs.
  unfoldable pub new_buffer : ℕ → Cmd (Machine L K Cb S) (Unit {0})
  new_buffer size w = ok tt (record w { buffer = record { size = size; bytes = [] } })

  unfoldable pub register : Tables → ℕ → ℕ → Cmd (Machine L K Cb S) ℕ
  register tables len t = do
    push t tables.kcp_meta
    push t tables.buffer_meta
    new_buffer len
    push t recv_buffer
    set_registry t kcp_lua_recv_buffer
    push t tables.library
    pure 1

zeros : (n : ℕ) → take n (replicate {A = ℕ} n 0) ≡ replicate n 0
zeros zero = refl
zeros (suc n) = ap (λ (xs : Bytes). 0 ∷ xs) (zeros n)

module _ {L : LuaApi} {K : KcpApi} {Cb S : Type 0} (lua : Lua.IsLawful L) (tables : Tables)
    (len t : ℕ) (w : Machine L K Cb S) where
  abbrev with_metatables : L.Vm
  with_metatables = L.push t tables.buffer_meta (L.push t tables.kcp_meta w.vm)

  abbrev with_field : L.Vm
  with_field = L.set_field t kcp_lua_recv_buffer (L.push t recv_buffer with_metatables)

  abbrev pub registered : Machine L K Cb S
  registered = record w {
    vm = L.push t tables.library with_field;
    buffer = record { size = len; bytes = [] };
  }

  pub register-ok : register tables len t w ≡ ok 1 registered
  unfolding register push set_registry new_buffer
  register-ok = refl

  -- However many bytes are read from the new buffer, they are zero.
  pub registered-zero : (n : ℕ) → front registered.buffer n ≡ replicate n 0
  registered-zero n =
      let whole : n - 0 ≡ n = omega arith in
      ap (λ m. take n (replicate {A = ℕ} m 0)) whole ∙ zeros n

  pub registered-field : L.field registered.vm kcp_lua_recv_buffer ≡ recv_buffer
  registered-field =
      lua.field-push t tables.library with_field kcp_lua_recv_buffer
      ∙ lua.field-set_field t kcp_lua_recv_buffer _ (L.slots with_metatables t) recv_buffer
          (lua.slots-push t recv_buffer with_metatables)

  with_field-slots : L.slots with_field t ≡ L.slots with_metatables t
  with_field-slots =
      lua.slots-set_field t kcp_lua_recv_buffer _ (L.slots with_metatables t) recv_buffer
        (lua.slots-push t recv_buffer with_metatables)

  pub registered-slots :
      L.slots registered.vm t
      ≡ L.slots w.vm t ++ tables.kcp_meta ∷ tables.buffer_meta ∷ tables.library ∷ []
  registered-slots = simp (lua.slots-push, with_field-slots, append_assoc)

  pub registered-references : L.references registered.vm ≡ L.references w.vm
  registered-references = simp (lua.references-push, lua.references-set_field)
