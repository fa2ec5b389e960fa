-- ===== src/Lkcp/Output/Stack.antt =====
-- What the methods of lkcp.c need of the Lua stack when they call the output function.
use lua_kcp_skynet.Prelude.{ℕ, some, true, ◌≡◌, inl, inr, Option-cases, ltb}
use lua_kcp_skynet.Prelude.Word.{int64_of_u64}
use lua_kcp_skynet.Heap.{Ptr, load}
use lua_kcp_skynet.Outcome.{◌>>=◌}
use lua_kcp_skynet.Outcome.Rules.{Ends, raises, mono}
use lua_kcp_skynet.Api.Lua.{Value, function, kcp, referred, LuaApi}
use lua_kcp_skynet.Api.Lua
use lua_kcp_skynet.Api.Kcp.{KcpApi}
use lua_kcp_skynet.Machine.{slot, in_slot, check_integer}
use lua_kcp_skynet.Machine.Steps.{guarded-ok}
use lua_kcp_skynet.Lkcp.{
  Callback, World, Method, recv, send, update, check, input, flush, wndsize, nodelay, lkcp_methods,
  lkcp_update,
}
use lua_kcp_skynet.Lkcp.Safety.Sound.{Open}
use lua_kcp_skynet.Lkcp.Output.{lkcp_flush-deliver, lkcp_update-number}

module _ {L : LuaApi} {K : KcpApi} where
  -- The reference of the callback block stands for a Lua function. With any other value each packet
  -- of an update or a flush leaves a slot on the stack.
  pub record HasFunction (cb : Callback) (w : World L K) : Type 0 where
    pub positive : ltb 0 cb.handle ≡ true
    pub f : ℕ
    pub value : referred (int64_of_u64 cb.handle) (L.references w.vm) ≡ function f

  -- The methods that call the output function need one.
  abbrev pub Needs : Method → Callback → World L K → Type 0
  Needs update cb w = HasFunction cb w
  Needs flush cb w = HasFunction cb w
  Needs _ cb w = Unit

  -- They leave the stack as it was.
  abbrev pub Leaves : Method → ℕ → World L K → World L K → Type 0
  Leaves update t w w' = L.slots w'.vm t ≡ L.slots w.vm t
  Leaves flush t w w' = L.slots w'.vm t ≡ L.slots w.vm t
  Leaves _ t w w' = Unit

module _ {L : LuaApi} {K : KcpApi} (lua : Lua.IsLawful L) (t p c : Ptr) (cb : Callback)
    (w : World L K) (open_pc : Open p c w) (self : slot t 1 w ≡ some (kcp (some p)))
    (holds : load w.callbacks c ≡ some cb) where
  update-Leaves : HasFunction cb w → Ends (λ _. Leaves update t w) (λ _. Unit {0}) (lkcp_update t w)
  unfolding lkcp_update check_integer
  update-Leaves x = elim (Option-cases (in_slot L.to_integer (slot t 2 w))) [
    | inl e ↦
        rw (guarded-ok t p c open_pc.b _ w self open_pc.held open_pc.user, e, ◌>>=◌) (raises tt)
    | inr (now, e) ↦
        mono ((lkcp_update-number lua t p c cb w open_pc self holds x.positive x.f x.value now e).1)
          (λ _ w' y. y.1) (λ _ _. tt)
  ]

  pub Needs-Leaves :
      (m : Method)
      → Ends (λ _ _. Unit {0}) (λ _. Unit {0}) (lkcp_methods m t w)
      → Needs m cb w
      → Ends (λ _. Leaves m t w) (λ _. Unit {0}) (lkcp_methods m t w)
  unfolding lkcp_methods
  Needs-Leaves recv ends x = ends
  Needs-Leaves send ends x = ends
  Needs-Leaves update ends x = update-Leaves x
  Needs-Leaves check ends x = ends
  Needs-Leaves input ends x = ends
  Needs-Leaves flush ends x =
      mono ((lkcp_flush-deliver lua t p c cb w open_pc self holds x.positive x.f x.value).1)
        (λ _ w' y. y.1) (λ _ _. tt)
  Needs-Leaves wndsize ends x = ends
  Needs-Leaves nodelay ends x = ends
