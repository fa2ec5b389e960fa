-- ===== src/Lkcpsn/Open.antt =====
-- `luaopen_lkcpsn`: what each service that requires the binding sets up, and what the process shares.
use lua_kcp_skynet.Prelude.Int.{ℤ}
use lua_kcp_skynet.Prelude.{
  replicate, sym, List, inl, inr, ◌↔◌, ℕ, ◌++◌, [], ◌∷◌, Option, none, some, ◌≡◌, refl, ap, ◌∙◌,
}
use lua_kcp_skynet.Outcome.{Cmd, ok, ◌>>◌}
use lua_kcp_skynet.Api.Lua.{Bytes, Value, recv_buffer, kcp_lua_recv_buffer, LuaApi}
use lua_kcp_skynet.Api.Lua
use lua_kcp_skynet.Api.Kcp.{KcpApi}
use lua_kcp_skynet.Machine.{front, text}
use lua_kcp_skynet.Registry.{Reg, new_lib, Listed, new_lib-Listed}
use lua_kcp_skynet.Machine.Open.{
  Tables, register, registered, register-ok, registered-field, registered-slots, registered-zero,
}
use lua_kcp_skynet.Addresses.{Datagram, World, on_statics}
use lua_kcp_skynet.Lkcpsn.{
  recv_buffer_len, lkcp_methods, lkcp_recv, lkcp_send, lkcp_update, lkcp_check, lkcp_input,
  lkcp_flush, lkcp_wndsize, lkcp_nodelay, lkcp_create, Method, recv, send, update, check, input,
  flush, wndsize, nodelay,
}

-- The Lua code that `LL` runs, up to spaces.
abbrev pub pack_code : Bytes
pack_code = text "function pack_output(subid, buf) return string.pack(\">I4s2\", subid, buf) end"

-- if(LL == NULL) …
abbrev pub ll_after : (L : LuaApi) → Option L.Vm → L.Vm
ll_after L none = L.new_state pack_code
ll_after L (some m) = m

-- The names under which the methods are registered.
abbrev pub method_name : Method → Bytes
method_name recv = text "lkcp_recv"
method_name send = text "lkcp_send"
method_name update = text "lkcp_update"
method_name check = text "lkcp_check"
method_name input = text "lkcp_input"
method_name flush = text "lkcp_flush"
method_name wndsize = text "lkcp_wndsize"
method_name nodelay = text "lkcp_nodelay"

module _ {L : LuaApi} {K : KcpApi} (udp_sendbuffer : List Datagram → ℤ) where
  -- The arrays `lkcp_methods` and `l_methods`.
  abbrev pub lkcp_methods_reg : Reg (ℕ → Cmd (World L K) ℕ)
  lkcp_methods_reg =
      (text "lkcp_recv", lkcp_recv)
      ∷ (text "lkcp_send", lkcp_send)
      ∷ (text "lkcp_update", lkcp_update udp_sendbuffer)
      ∷ (text "lkcp_check", lkcp_check)
      ∷ (text "lkcp_input", lkcp_input)
      ∷ (text "lkcp_flush", lkcp_flush udp_sendbuffer)
      ∷ (text "lkcp_wndsize", lkcp_wndsize)
      ∷ (text "lkcp_nodelay", lkcp_nodelay)
      ∷ []

  registered_under :
      (m : Method) → new_lib lkcp_methods_reg (method_name m) ≡ some (lkcp_methods udp_sendbuffer m)
  unfolding lkcp_methods
  registered_under recv = refl
  registered_under send = refl
  registered_under update = refl
  registered_under check = refl
  registered_under input = refl
  registered_under flush = refl
  registered_under wndsize = refl
  registered_under nodelay = refl

  entry_of :
      (name : Bytes) (g : ℕ → Cmd (World L K) ℕ)
      → Listed lkcp_methods_reg name g
      → (m : Method) × (name ≡ method_name m) × (g ≡ lkcp_methods udp_sendbuffer m)
  unfolding lkcp_methods
  entry_of name g (inl (n, f)) = (recv, n, f)
  entry_of name g (inr (inl (n, f))) = (send, n, f)
  entry_of name g (inr (inr (inl (n, f)))) = (update, n, f)
  entry_of name g (inr (inr (inr (inl (n, f))))) = (check, n, f)
  entry_of name g (inr (inr (inr (inr (inl (n, f)))))) = (input, n, f)
  entry_of name g (inr (inr (inr (inr (inr (inl (n, f))))))) = (flush, n, f)
  entry_of name g (inr (inr (inr (inr (inr (inr (inl (n, f)))))))) = (wndsize, n, f)
  entry_of name g (inr (inr (inr (inr (inr (inr (inr (inl (n, f))))))))) = (nodelay, n, f)
  entry_of name g (inr (inr (inr (inr (inr (inr (inr (inr (x))))))))) = elim x [ ]

  -- A script finds a function under a name of a connection exactly if the name is one of the eight
  -- of the methods, and then it finds the method of that name.
  pub lkcp_methods_reg_eqv :
      (name : Bytes) (g : ℕ → Cmd (World L K) ℕ)
      → (new_lib lkcp_methods_reg name ≡ some g)
        ↔ ((m : Method) × (name ≡ method_name m) × (g ≡ lkcp_methods udp_sendbuffer m))
  lkcp_methods_reg_eqv name g = (
    λ e. entry_of name g (new_lib-Listed lkcp_methods_reg name g e),
    λ (m, n, f). ap (new_lib lkcp_methods_reg) n ∙ registered_under m ∙ ap some (sym f),
  )

module _ {L : LuaApi} {K : KcpApi} where
  abbrev pub l_methods : Reg (ℕ → Cmd (World L K) ℕ)
  l_methods = (text "lkcp_create", lkcp_create) ∷ []

  unfoldable pub open_ll : Cmd (World L K) (Unit {0})
  open_ll = on_statics (λ s. record s { ll = some (ll_after L s.ll) })

  unfoldable pub luaopen_lkcpsn : Tables → ℕ → Cmd (World L K) ℕ
  luaopen_lkcpsn tables t = do open_ll; register tables recv_buffer_len t

module _ {L : LuaApi} {K : KcpApi} (lua : Lua.IsLawful L) where
  -- The first service that requires the binding makes the shared Lua state, with an empty stack;
  -- later ones find it as it is. The registry field in which `lkcp_recv` looks up the receive buffer
  -- leads to one of RECV_BUFFER_LEN bytes, all of them zero whatever a buffer held before, and the
  -- library is on the stack. Connections, address blocks and the socket stay as they are.
  pub luaopen_lkcpsn-ready :
      (tables : Tables) (t : ℕ) (w : World L K)
      → (w' : World L K) × (m : L.Vm) × (luaopen_lkcpsn tables t w ≡ ok 1 w')
        × (w'.statics.ll ≡ some m)
        × (w.statics.ll ≡ none → (m ≡ L.new_state pack_code) × (L.slots m 0 ≡ []))
        × ((m' : L.Vm) → w.statics.ll ≡ some m' → m ≡ m')
        × (w'.buffer.size ≡ recv_buffer_len)
        × ((n : ℕ) → front w'.buffer n ≡ replicate n 0)
        × (L.field w'.vm kcp_lua_recv_buffer ≡ recv_buffer)
        × (L.slots w'.vm t
            ≡ L.slots w.vm t ++ tables.kcp_meta ∷ tables.buffer_meta ∷ tables.library ∷ [])
        × (w'.kcps ≡ w.kcps)
        × (w'.callbacks ≡ w.callbacks)
        × (w'.statics.addresses ≡ w.statics.addresses)
        × (w'.statics.svrsock ≡ w.statics.svrsock)
  unfolding luaopen_lkcpsn open_ll
  luaopen_lkcpsn-ready tables t w =
      let shared : World L K = record w {
        statics = record (w.statics) { ll = some (ll_after L w.statics.ll) };
      } in
      (
        registered lua tables recv_buffer_len t shared,
        ll_after L w.statics.ll,
        register-ok lua tables recv_buffer_len t shared,
        refl,
        λ e.
            let new : ll_after L w.statics.ll ≡ L.new_state pack_code = ap (ll_after L) e in
            (new, ap (λ (m : L.Vm). L.slots m 0) new ∙ lua.slots-new_state pack_code),
        λ m' e. ap (ll_after L) e,
        refl,
        λ n. registered-zero lua tables recv_buffer_len t shared n,
        registered-field lua tables recv_buffer_len t shared,
        registered-slots lua tables recv_buffer_len t shared,
        refl,
        refl,
        refl,
        refl,
      )
