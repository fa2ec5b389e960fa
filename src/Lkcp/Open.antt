-- ===== src/Lkcp/Open.antt =====
-- `luaopen_lkcp`, which a script's `require` calls: what it sets up for the methods.
use lua_kcp_skynet.Prelude.{sym, ap, ◌∙◌, ℕ, some, inl, inr, ◌↔◌, ◌++◌, [], ◌∷◌, none, ◌≡◌, refl}
use lua_kcp_skynet.Heap.{load, live}
use lua_kcp_skynet.Outcome.{Cmd, ok}
use lua_kcp_skynet.Api.Lua.{Bytes, Value, recv_buffer, kcp_lua_recv_buffer, LuaApi}
use lua_kcp_skynet.Api.Lua
use lua_kcp_skynet.Api.Kcp.{KcpApi}
use lua_kcp_skynet.Machine.{text}
use lua_kcp_skynet.Registry.{Reg, new_lib, Listed, new_lib-Listed}
use lua_kcp_skynet.Machine.Open.{
  Tables, register, registered, register-ok, registered-field, registered-slots,
  registered-references,
}
use lua_kcp_skynet.Lkcp.{
  World, recv_buffer_len, lkcp_methods, lkcp_recv, lkcp_send, lkcp_update, lkcp_check, lkcp_input,
  lkcp_flush, lkcp_wndsize, lkcp_nodelay, lkcp_create, Method, recv, send, update, check, input,
  flush, wndsize, nodelay,
}
use lua_kcp_skynet.Lkcp.Safety.Sound.{Sound}

-- The names under which the methods are registered.
abbrev pub method_name : Method → Bytes
method_name recv = text "lkcp_recv"
method_name send = text "lkcp_send"
method_name update = text "lkcp_update"
method_name check = text "lkcp_check"
method_name input = text "lkcp_input"
method_name flush = text "lkcp_flush"
method_name wndsize = text "lkcp_wndsize"
method_name nodelay = text "lkcp_nodelay"

module _ {L : LuaApi} {K : KcpApi} where
  -- The arrays `lkcp_methods` and `l_methods`.
  abbrev pub lkcp_methods_reg : Reg (ℕ → Cmd (World L K) ℕ)
  lkcp_methods_reg =
      (text "lkcp_recv", lkcp_recv)
      ∷ (text "lkcp_send", lkcp_send)
      ∷ (text "lkcp_update", lkcp_update)
      ∷ (text "lkcp_check", lkcp_check)
      ∷ (text "lkcp_input", lkcp_input)
      ∷ (text "lkcp_flush", lkcp_flush)
      ∷ (text "lkcp_wndsize", lkcp_wndsize)
      ∷ (text "lkcp_nodelay", lkcp_nodelay)
      ∷ []

  abbrev pub l_methods : Reg (ℕ → Cmd (World L K) ℕ)
  l_methods = (text "lkcp_create", lkcp_create) ∷ []

  registered_under : (m : Method) → new_lib lkcp_methods_reg (method_name m) ≡ some (lkcp_methods m)
  unfolding lkcp_methods
  registered_under recv = refl
  registered_under send = refl
  registered_under update = refl
  registered_under check = refl
  registered_under input = refl
  registered_under flush = refl
  registered_under wndsize = refl
  registered_under nodelay = refl

  entry_of :
      (name : Bytes) (g : ℕ → Cmd (World L K) ℕ)
      → Listed lkcp_methods_reg name g
      → (m : Method) × (name ≡ method_name m) × (g ≡ lkcp_methods m)
  unfolding lkcp_methods
  entry_of name g (inl (n, f)) = (recv, n, f)
  entry_of name g (inr (inl (n, f))) = (send, n, f)
  entry_of name g (inr (inr (inl (n, f)))) = (update, n, f)
  entry_of name g (inr (inr (inr (inl (n, f))))) = (check, n, f)
  entry_of name g (inr (inr (inr (inr (inl (n, f)))))) = (input, n, f)
  entry_of name g (inr (inr (inr (inr (inr (inl (n, f))))))) = (flush, n, f)
  entry_of name g (inr (inr (inr (inr (inr (inr (inl (n, f)))))))) = (wndsize, n, f)
  entry_of name g (inr (inr (inr (inr (inr (inr (inr (inl (n, f))))))))) = (nodelay, n, f)
  entry_of name g (inr (inr (inr (inr (inr (inr (inr (inr (x))))))))) = elim x [ ]

  -- A script finds a function under a name of a connection exactly if the name is one of the eight
  -- of the methods, and then it finds the method of that name.
  pub lkcp_methods_reg_iff :
      (name : Bytes) (g : ℕ → Cmd (World L K) ℕ)
      → (new_lib lkcp_methods_reg name ≡ some g)
        ↔ ((m : Method) × (name ≡ method_name m) × (g ≡ lkcp_methods m))
  lkcp_methods_reg_iff name g = (
    λ e. entry_of name g (new_lib-Listed lkcp_methods_reg name g e),
    λ (m, n, f). ap (new_lib lkcp_methods_reg) n ∙ registered_under m ∙ ap some (sym f),
  )

  unfoldable pub luaopen_lkcp : Tables → ℕ → Cmd (World L K) ℕ
  luaopen_lkcp tables t = register tables recv_buffer_len t

module _ {L : LuaApi} {K : KcpApi} (lua : Lua.IsLawful L) where
  -- Before the first `require` there is no connection and no callback block. Afterwards the
  -- invariant of the methods holds, `lkcp_recv` finds the receive buffer, and the library is the
  -- value that is returned.
  pub luaopen_lkcp-Sound :
      (tables : Tables) (t : ℕ) (w : World L K)
      → w.kcps ≡ []
      → w.callbacks ≡ []
      → (w' : World L K) × (luaopen_lkcp tables t w ≡ ok 1 w')
        × Sound w'
        × (L.field w'.vm kcp_lua_recv_buffer ≡ recv_buffer)
        × (L.slots w'.vm t
            ≡ L.slots w.vm t ++ tables.kcp_meta ∷ tables.buffer_meta ∷ tables.library ∷ [])
        × (L.references w'.vm ≡ L.references w.vm)
  unfolding luaopen_lkcp load live
  luaopen_lkcp-Sound tables t w no_kcps no_callbacks = (
    registered lua tables recv_buffer_len t w,
    register-ok lua tables recv_buffer_len t w,
    record {
      owner = λ p b e. let n : load w.kcps p ≡ none = rw no_kcps refl in cc;
      unique = λ p q c a b e e' u u'. let n : load w.kcps p ≡ none = rw no_kcps refl in cc;
      paired = rw (no_kcps, no_callbacks) refl;
      sized = refl;
    },
    registered-field lua tables recv_buffer_len t w,
    registered-slots lua tables recv_buffer_len t w,
    registered-references lua tables recv_buffer_len t w,
  )
