-- ===== src/Together/Exclusive.antt =====
-- The steps of services of which only one at a time has something on the stack of `LL`.
use lua_kcp_skynet.Prelude.{ℕ, false, List, [], ◌∷◌, ◌++◌, some, ◌≡◌, ◌≢◌, refl, ◌∙◌}
use lua_kcp_skynet.Prelude.Int.{ℤ, pos}
use lua_kcp_skynet.Outcome.{ok, ◌>>=◌}
use lua_kcp_skynet.Api.Lua.{Bytes, Value, LuaApi, integer, string, function}
use lua_kcp_skynet.Api.Lua
use lua_kcp_skynet.Api.Kcp.{KcpApi}
use lua_kcp_skynet.Addresses.{Datagram, World}
use lua_kcp_skynet.Sender.{on_ll, ll_is_function, ll_check_string, send_datagram, check_sent}
use lua_kcp_skynet.Together.{
  Pc, lock, get_global, is_function, push_conv, push_buf, call, check_string, pop, send, unlock,
  done, failed, Service, turn, step,
}
use lua_kcp_skynet.Together.Steps.{Stacked}
use lua_kcp_skynet.Together.Places.{advance, inside, at, part, emitted}

module _ {L : LuaApi} {K : KcpApi} (udp_sendbuffer : List Datagram → ℤ) where
  -- The step of a service at pc ended as it should, with the stack xs.
  pub record Advanced (f : ℕ) (pc : Pc) (r : Bytes) (s : Service) (xs : List Value) (w : World L K)
      : Type 0 where
    pub w' : World L K
    pub eq : turn udp_sendbuffer (at pc r s) w ≡ ok (at (advance pc) r s) w'
    pub stacked : Stacked f xs w'
    pub sent : w'.statics.sent ≡ emitted pc r s ++ w.statics.sent

module _ {L : LuaApi} {K : KcpApi} (lua : Lua.IsLawful L) (udp_sendbuffer : List Datagram → ℤ)
    (accepts : (ds : List Datagram) → udp_sendbuffer ds ≡ pos 0) (f : ℕ) (r : Bytes) (s : Service)
    (packing : L.result (function f) (integer (pos s.conv)) (string s.buf) ≡ string r)
    (w : World L K) where
  -- A service outside does not look at the stack.
  turn-lock : (xs : List Value) → Stacked f xs w → Advanced udp_sendbuffer f lock r s xs w
  unfolding turn step
  turn-lock xs d = record { w' = w; eq = refl; stacked = d; sent = refl }

  turn-unlock : (xs : List Value) → Stacked f xs w → Advanced udp_sendbuffer f unlock r s xs w
  unfolding turn step
  turn-unlock xs d = record { w' = w; eq = refl; stacked = d; sent = refl }

  turn-done : (xs : List Value) → Stacked f xs w → Advanced udp_sendbuffer f done r s xs w
  unfolding turn step
  turn-done xs d = record { w' = w; eq = refl; stacked = d; sent = refl }

  turn-send : (xs : List Value) → Stacked f xs w → Advanced udp_sendbuffer f send r s xs w
  unfolding turn step send_datagram check_sent
  turn-send xs d = record {
    w' = record w { statics = record (w.statics) { sent = s.envelope r ∷ w.statics.sent } };
    eq = rw (accepts (s.envelope r ∷ w.statics.sent), ◌>>=◌);
    stacked = record { m = d.m; ll = d.ll; stack = d.stack; packs = d.packs };
    sent = refl;
  }

  with_ll : (m : L.Vm) → World L K
  with_ll m = record w { statics = record (w.statics) { ll = some m } }

  on_stack :
      (pc : Pc) (m : L.Vm) (xs : List Value)
      → turn udp_sendbuffer (at pc r s) w ≡ ok (at (advance pc) r s) (with_ll m)
      → L.slots m 0 ≡ xs
      → L.pack_output m ≡ function f
      → emitted pc r s ≡ []
      → Advanced udp_sendbuffer f pc r s xs w
  unfolding with_ll
  on_stack pc m xs e stack packs quiet = record {
    w' = with_ll m;
    eq = e;
    stacked = record { m = m; ll = refl; stack = stack; packs = packs };
    sent = rw quiet refl;
  }

  -- A service that is alone on the stack.
  pub turn-inside :
      (pc : Pc)
      → Stacked f (part f pc r s) w
      → Advanced udp_sendbuffer f pc r s (part f (advance pc) r s) w
  unfolding turn step on_ll ll_is_function ll_check_string with_ll
  turn-inside lock d = turn-lock [] d
  turn-inside get_global d =
      on_stack get_global (L.push 0 (L.pack_output d.m) d.m) (function f ∷ []) (rw (d.ll, ◌>>=◌))
        (lua.slots-push 0 _ d.m ∙ rw (d.stack, d.packs) refl)
        (lua.pack_output-push 0 _ d.m ∙ d.packs) refl
  turn-inside is_function d = record {
    w' = w;
    eq = rw (d.ll, ◌>>=◌, d.stack) refl;
    stacked = d;
    sent = refl;
  }
  turn-inside push_conv d =
      on_stack push_conv (L.push 0 (integer (pos s.conv)) d.m) _ (rw (d.ll, ◌>>=◌))
        (lua.slots-push 0 _ d.m ∙ rw d.stack refl) (lua.pack_output-push 0 _ d.m ∙ d.packs) refl
  turn-inside push_buf d =
      on_stack push_buf (L.push 0 (string s.buf) d.m) _ (rw (d.ll, ◌>>=◌))
        (lua.slots-push 0 _ d.m ∙ rw d.stack refl) (lua.pack_output-push 0 _ d.m ∙ d.packs) refl
  turn-inside call d =
      on_stack call (L.pcall 0 d.m) _ (rw (d.ll, ◌>>=◌))
        (lua.slots-pcall 0 d.m [] (function f) (integer (pos s.conv)) (string s.buf) d.stack
          ∙ rw packing refl)
        (lua.pack_output-pcall 0 d.m ∙ d.packs) refl
  turn-inside check_string d =
      on_stack check_string d.m (string r ∷ [])
        (rw (d.ll, ◌>>=◌, ll_check_string, lua.check_string-string 0 0 d.m r (rw d.stack refl)))
        d.stack d.packs refl
  turn-inside pop d =
      on_stack pop (L.pop 0 d.m) [] (rw (d.ll, ◌>>=◌)) (lua.slots-pop 0 d.m [] (string r) d.stack)
        (lua.pack_output-pop 0 d.m ∙ d.packs) refl
  turn-inside send d = turn-send [] d
  turn-inside unlock d = turn-unlock [] d
  turn-inside done d = turn-done [] d
  turn-inside (failed e) d = record { w' = w; eq = refl; stacked = d; sent = refl }

  -- A service that stays outside, whatever is on the stack.
  pub turn-outside :
      (pc : Pc) (xs : List Value)
      → inside pc ≡ false
      → pc ≢ get_global
      → Stacked f xs w
      → Advanced udp_sendbuffer f pc r s xs w
  unfolding turn step
  turn-outside lock xs out ne d = turn-lock xs d
  turn-outside get_global xs out ne d = absurd (ne refl)
  turn-outside is_function xs out ne d = cc
  turn-outside push_conv xs out ne d = cc
  turn-outside push_buf xs out ne d = cc
  turn-outside call xs out ne d = cc
  turn-outside check_string xs out ne d = cc
  turn-outside pop xs out ne d = cc
  turn-outside send xs out ne d = cc
  turn-outside unlock xs out ne d = turn-unlock xs d
  turn-outside done xs out ne d = turn-done xs d
  turn-outside (failed e) xs out ne d = record { w' = w; eq = refl; stacked = d; sent = refl }
