-- ===== src/Together/Steps.antt =====
-- What the steps of a service do when the stack of `LL` is not empty.
use mathlib.Core.List.{append_assoc}
use lua_kcp_skynet.Sender.{
  Packing, on_ll, ll_is_function, ll_check_string, send_datagram, check_sent,
}
use lua_kcp_skynet.Prelude.{
  false, ℕ, suc, ◌-◌, List, [], ◌∷◌, ◌++◌, some, ◌≡◌, refl, ◌∙◌, length, arith, get_elem?,
  get_elem?-append_last, length-append,
}
use lua_kcp_skynet.Prelude.Int.{ℤ, pos}
use lua_kcp_skynet.Outcome.{ok, fault, ◌>>=◌}
use lua_kcp_skynet.Api.Lua.{Bytes, Value, LuaApi, integer, string, function}
use lua_kcp_skynet.Api.Lua
use lua_kcp_skynet.Api.Kcp.{KcpApi}
use lua_kcp_skynet.Addresses.{Datagram, World}
use lua_kcp_skynet.Together.{done, is_function, check_string, Service, fresh, turn, solo, step}

module _ {L : LuaApi} {K : KcpApi} where
  -- `LL` has the given stack and the function f as `pack_output`.
  pub record Stacked (f : ℕ) (xs : List Value) (w : World L K) : Type 0 where
    pub m : L.Vm
    pub ll : w.statics.ll ≡ some m
    pub stack : L.slots m 0 ≡ xs
    pub packs : L.pack_output m ≡ function f

module _ {L : LuaApi} {K : KcpApi} (lua : Lua.IsLawful L) (udp_sendbuffer : List Datagram → ℤ)
    (pk : Packing L) where
  -- After the call of `pack_output` the packed bytes are on top of what was there.
  pub solo-call :
      (conv : ℕ) (buf : Bytes) (envelope : Bytes → Datagram) (w : World L K) (xs : List Value)
      → Stacked pk.f xs w
      → (w' : World L K) × (solo udp_sendbuffer 6 (fresh conv buf envelope) w
          ≡ ok (record (fresh conv buf envelope) { pc = check_string }) w')
        × Stacked pk.f (xs ++ string (pk.result conv buf) ∷ []) w'
        × (w'.statics.sent ≡ w.statics.sent)
  unfolding solo turn step on_ll ll_is_function
  solo-call conv buf envelope w xs d =
      let looked : L.Vm = L.push 0 (L.pack_output d.m) d.m in
      let ready : L.Vm = L.push 0 (string buf) (L.push 0 (integer (pos conv)) looked) in
      let called : L.Vm = L.pcall 0 ready in
      let top : length (xs ++ function pk.f ∷ []) - 1 ≡ length xs =
        omega (arith, length-append {0} xs (function pk.f ∷ [])) in
      let looked-slots : L.slots looked 0 ≡ xs ++ function pk.f ∷ [] =
        lua.slots-push 0 _ d.m ∙ rw (d.stack, d.packs) refl in
      let args-slots : L.slots ready 0
          ≡ (xs ++ function pk.f ∷ integer (pos conv) ∷ string buf ∷ []) =
        lua.slots-push 0 _ _ ∙ simp (lua.slots-push, d.stack, d.packs, append_assoc) in
      (
        record w { statics = record (w.statics) { ll = some called } },
        rw (d.ll, ◌>>=◌, looked-slots, top, get_elem?-append_last xs (function pk.f), ◌>>=◌),
        record {
          m = called;
          ll = refl;
          stack =
              lua.slots-pcall 0 ready xs (function pk.f) (integer (pos conv)) (string buf)
                args-slots
              ∙ rw (pk.leaves conv buf) refl;
          packs =
              lua.pack_output-pcall 0 ready
              ∙ lua.pack_output-push 0 _ _
              ∙ lua.pack_output-push 0 _ _
              ∙ lua.pack_output-push 0 _ _
              ∙ d.packs;
        },
        refl,
      )

  -- The bytes that are read, and sent, are those in slot 1; the top of the stack is dropped.
  pub solo-send :
      (s : Service) (w : World L K) (r : Bytes) (xs : List Value) (v : Value)
      → s.pc ≡ check_string
      → s.stale ≡ false
      → get_elem? (xs ++ v ∷ []) 0 ≡ some (string r)
      → udp_sendbuffer (s.envelope r ∷ w.statics.sent) ≡ pos 0
      → Stacked pk.f (xs ++ v ∷ []) w
      → (w' : World L K) × (solo udp_sendbuffer 4 s w ≡ ok (record s { packed = r; pc = done }) w')
        × Stacked pk.f xs w'
        × (w'.statics.sent ≡ s.envelope r ∷ w.statics.sent)
  unfolding solo turn step on_ll ll_check_string send_datagram check_sent
  solo-send s w r xs v at valid bottom accepted d = (
    record w {
      statics = record (w.statics) {
        ll = some (L.pop 0 d.m);
        sent = s.envelope r ∷ w.statics.sent;
      };
    },
    rw (
      at,
      ◌>>=◌,
      ll_check_string,
      d.ll,
      lua.check_string-string 0 0 d.m r (rw d.stack bottom),
      ◌>>=◌,
      ◌>>=◌,
      turn,
      valid,
      ◌>>=◌,
      accepted,
    ),
    record {
      m = L.pop 0 d.m;
      ll = refl;
      stack = lua.slots-pop 0 d.m xs v d.stack;
      packs = lua.pack_output-pop 0 d.m ∙ d.packs;
    },
    refl,
  )

-- Before its test for a function a service has only put `pack_output` on the stack.
module _ {L : LuaApi} {K : KcpApi} (lua : Lua.IsLawful L) (udp_sendbuffer : List Datagram → ℤ)
    (f : ℕ) where
  pub solo-get_global :
      (conv : ℕ) (buf : Bytes) (envelope : Bytes → Datagram) (w : World L K) (xs : List Value)
      → Stacked f xs w
      → (w' : World L K) × (solo udp_sendbuffer 2 (fresh conv buf envelope) w
          ≡ ok (record (fresh conv buf envelope) { pc = is_function }) w')
        × Stacked f (xs ++ function f ∷ []) w'
  unfolding solo turn step on_ll
  solo-get_global conv buf envelope w xs d =
      let looked : L.Vm = L.push 0 (L.pack_output d.m) d.m in
      (
        record w { statics = record (w.statics) { ll = some looked } },
        rw (d.ll, ◌>>=◌),
        record {
          m = looked;
          ll = refl;
          stack = lua.slots-push 0 _ d.m ∙ rw (d.stack, d.packs) refl;
          packs = lua.pack_output-push 0 _ d.m ∙ d.packs;
        },
      )

  -- A function in slot 1 is an error that nothing catches.
  pub solo-abort :
      (n : ℕ) (s : Service) (w : World L K) (xs : List Value)
      → s.pc ≡ check_string
      → Stacked f (function f ∷ xs) w
      → solo udp_sendbuffer (suc n) s w ≡ fault
  unfolding solo turn step ll_check_string
  solo-abort n s w xs at d =
      rw (at, ◌>>=◌, ll_check_string, d.ll, lua.check_string-function 0 0 d.m f (rw d.stack refl))
