-- ===== src/Lkcp/Output/Leaves.antt =====
-- A run of the library in lkcp.c whose output value is no function.
use mathlib.Core.List.{append_assoc, append-nil}
use lua_kcp_skynet.Prelude.{
  suc, ◌≢◌, List, [], ◌∷◌, ◌++◌, length, get_elem?-append_last, arith, sym, ◌-◌, length-append,
  true, false, replicate, ℕ, some, ◌≡◌, refl, ◌∙◌, ap, ltb,
}
use lua_kcp_skynet.Prelude.Int.{pos}
use lua_kcp_skynet.Prelude.Word.{int64_of_u64}
use lua_kcp_skynet.Heap.{Ptr, write}
use lua_kcp_skynet.Outcome.{ok, ◌>>=◌}
use lua_kcp_skynet.Api.Lua.{
  nil, recv_buffer, light, other, Bytes, Value, integer, string, function, kcp, LuaApi, referred,
  Called, returned, failed,
}
use lua_kcp_skynet.Api.Lua
use lua_kcp_skynet.Api.Kcp.{KcpApi, Run, finish, emit}
use lua_kcp_skynet.Machine.{
  on_ctl, output, drive, load_callback, load_kcp, store_kcp, raw_get, is_function,
  is_function_value,
}
use lua_kcp_skynet.Lkcp.{Callback, World, call_output, output_on, kcp_output_callback}
use lua_kcp_skynet.Lkcp.Safety.Sound.{Open-Frame, Open-Connected}
use lua_kcp_skynet.Lkcp.Output.Drive.{Running}

-- The packets of a run whose output function returns 0.
abbrev pub packets : {Ctl : Type 0} → Run Ctl → ℕ
packets (finish k) = 0
packets (emit buf k next) = suc (packets (next (pos 0)))

-- What `lua_isfunction` says of another value.
no_function : (v : Value) → ((g : ℕ) → v ≢ function g) → is_function_value (some v) ≡ false
no_function nil d = refl
no_function (integer n) d = refl
no_function (string x) d = refl
no_function (function f) d = absurd (d f refl)
no_function (kcp q) d = refl
no_function recv_buffer d = refl
no_function (light q) d = refl
no_function (other n) d = refl

module _ {L : LuaApi} {K : KcpApi} (lua : Lua.IsLawful L) (p c t : Ptr) (cb : Callback)
    (on_t : cb.el ≡ some t) (positive : ltb 0 cb.handle ≡ true) where
  -- A packet whose value is no function leaves the value on the stack.
  output-leaves :
      (v : Value) (xs : List Value) (buf : Bytes) (w : World L K)
      → ((g : ℕ) → v ≢ function g)
      → Running p c t cb v xs w
      → output kcp_output_callback buf p w ≡ ok (pos 0) (record w { vm = L.push t v w.vm })
  unfolding output load_kcp kcp_output_callback load_callback output_on raw_get is_function
      call_output
  output-leaves v xs buf w other_value i =
      let (b, e, u, o) = (Open-Connected p c).block w i.open_pc in
      let slots1 : L.slots (L.push t v w.vm) t ≡ xs ++ v ∷ [] =
        lua.slots-push t v w.vm ∙ ap (λ (ys : List Value). ys ++ v ∷ []) i.stack in
      let top : length (xs ++ v ∷ []) - 1 ≡ length xs =
        omega (arith, length-append {0} xs (v ∷ [])) in
      rw
        (
          e,
          u,
          o,
          ◌>>=◌,
          i.holds,
          on_t,
          positive,
          i.value,
          ◌>>=◌,
          slots1,
          top,
          get_elem?-append_last xs v,
          no_function v other_value,
        )
        refl

  pushed-Running :
      (v : Value) (xs : List Value) (w : World L K)
      → Running p c t cb v xs w
      → Running p c t cb v (xs ++ v ∷ []) (record w { vm = L.push t v w.vm })
  pushed-Running v xs w i = record {
    open_pc = (Open-Frame p c).on_vm w (L.push t v w.vm) (lua.references-push t v w.vm) i.open_pc;
    holds = i.holds;
    stack = lua.slots-push t v w.vm ∙ ap (λ (ys : List Value). ys ++ v ∷ []) i.stack;
    value = ap (referred (int64_of_u64 cb.handle)) (lua.references-push t v w.vm) ∙ i.value;
  }

  pub drive-leaves :
      (v : Value) (xs : List Value) (run : Run K.Ctl) (w : World L K)
      → ((g : ℕ) → v ≢ function g)
      → Running p c t cb v xs w
      → (w' : World L K) × (drive kcp_output_callback p run w ≡ ok tt w')
        × (L.slots w'.vm t ≡ xs ++ replicate (packets run) v)
  unfolding drive on_ctl load_kcp store_kcp
  drive-leaves v xs (finish k) w other_value i =
      let (b, e, u, o) = (Open-Connected p c).block w i.open_pc in
      (
        record w { kcps = write w.kcps p (record b { ctl = k }) },
        rw (e, ◌>>=◌) refl,
        i.stack ∙ sym (append-nil xs),
      )
  drive-leaves v xs (emit buf k next) w other_value i =
      let (b, e, u, o) = (Open-Connected p c).block w i.open_pc in
      let w1 : World L K = record w { kcps = write w.kcps p (record b { ctl = k }) } in
      let i1 : Running p c t cb v xs w1 = record {
        open_pc = (Open-Frame p c).on_block w b k e i.open_pc;
        holds = i.holds;
        stack = i.stack;
        value = i.value;
      } in
      let (w', e', s') =
        drive-leaves v (xs ++ v ∷ []) (next (pos 0)) (record w1 { vm = L.push t v w1.vm })
          other_value (pushed-Running v xs w1 i1) in
      (
        w',
        rw (e, ◌>>=◌, output-leaves v xs buf w1 other_value i1) e',
        s' ∙ append_assoc xs (v ∷ []) (replicate (packets (next (pos 0))) v),
      )
