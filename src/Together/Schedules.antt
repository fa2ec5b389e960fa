-- ===== src/Together/Schedules.antt =====
-- Two services under any schedule that keeps them apart on the stack of `LL`.
use mathlib.Core.List.{append-nil}
use lua_kcp_skynet.Sender.{Packing}
use lua_kcp_skynet.Prelude.{
  ℕ, ◌&&◌, Bool, true, false, not, List, [], ◌∷◌, ◌++◌, ◌≡◌, ◌≢◌, ◌⊎◌, inl, inr, refl, ◌∙◌, sym, ap,
  Bool-cases,
}
use lua_kcp_skynet.Prelude.Int.{ℤ, pos}
use lua_kcp_skynet.Outcome.{ok, ◌>>=◌}
use lua_kcp_skynet.Api.Lua.{Bytes, Value, LuaApi, integer, string, function}
use lua_kcp_skynet.Api.Lua
use lua_kcp_skynet.Api.Kcp.{KcpApi}
use lua_kcp_skynet.Addresses.{Datagram, World}
use lua_kcp_skynet.Together.Order.{InOrder, InOrder-swapped, InOrder-more}
use lua_kcp_skynet.Together.{
  beside, Pc, lock, get_global, Service, Who, first, second, Pair, turn, turn_of, run,
}
use lua_kcp_skynet.Together.Steps.{Stacked}
use lua_kcp_skynet.Together.Places.{
  points-outside, beside-outside, advance, inside, at, part, delivered, advance-outside,
  part-outside, delivered-advance, emitted_first,
}
use lua_kcp_skynet.Together.Exclusive.{turn-inside, turn-outside}

-- A service at `x` may step while the other is at `y`: it does not call `lua_getglobal` while the
-- other is between that call and the end of its call of the socket.
abbrev pub may_step : Pc → Pc → Bool
may_step get_global y = not (inside y)
may_step _ y = true

abbrev pub exclusive : List Who → Pc → Pc → Bool
exclusive [] x y = true
exclusive (first ∷ schedule) x y = may_step x y && exclusive schedule (advance x) y
exclusive (second ∷ schedule) x y = may_step y x && exclusive schedule x (advance y)

-- Where the two are after a schedule.
abbrev pub walk_first : List Who → Pc → Pc
walk_first [] x = x
walk_first (first ∷ schedule) x = walk_first schedule (advance x)
walk_first (second ∷ schedule) x = walk_first schedule x

abbrev pub walk_second : List Who → Pc → Pc
walk_second [] y = y
walk_second (first ∷ schedule) y = walk_second schedule y
walk_second (second ∷ schedule) y = walk_second schedule (advance y)

module _ {L : LuaApi} {K : KcpApi} (f : ℕ) (r r' : Bytes) (a b : Service)
    (old : List Datagram) where
  -- At most one of the two has something on the stack, and what was sent is what they delivered.
  pub record Apart (x y : Pc) (w : World L K) : Type 0 where
    pub one_outside : (inside x ≡ false) ⊎ (inside y ≡ false)
    pub stacked : Stacked f (part f x r a ++ part f y r' b) w
    pub sent : InOrder (delivered x r a) (delivered y r' b) old w.statics.sent

-- With nothing of one on the stack the order does not matter.
stack_order :
    (f : ℕ) (x y : Pc) (r r' : Bytes) (a b : Service)
    → (inside x ≡ false) ⊎ (inside y ≡ false)
    → part f x r a ++ part f y r' b ≡ part f y r' b ++ part f x r a
stack_order f x y r r' a b (inl out) = rw (part-outside f x r a out, append-nil) refl
stack_order f x y r r' a b (inr out) = rw (part-outside f y r' b out, append-nil) refl

module _ {L : LuaApi} {K : KcpApi} where
  Stacked-eq :
      (f : ℕ) (xs ys : List Value) (w : World L K) → xs ≡ ys → Stacked f xs w → Stacked f ys w
  Stacked-eq f xs ys w e d = record { m = d.m; ll = d.ll; stack = d.stack ∙ e; packs = d.packs }

  Apart-swapped :
      (f : ℕ) (r r' : Bytes) (a b : Service) (old : List Datagram) (x y : Pc) (w : World L K)
      → Apart f r r' a b old x y w
      → Apart f r' r b a old y x w
  Apart-swapped f r r' a b old x y w i = record {
    one_outside = elim i.one_outside [ inl out ↦ inr out | inr out ↦ inl out ];
    stacked =
        Stacked-eq f (part f x r a ++ part f y r' b) (part f y r' b ++ part f x r a) w
          (stack_order f x y r r' a b i.one_outside) i.stacked;
    sent = InOrder-swapped (delivered x r a) (delivered y r' b) old i.sent;
  }

module _ {L : LuaApi} {K : KcpApi} (lua : Lua.IsLawful L) (udp_sendbuffer : List Datagram → ℤ)
    (accepts : (ds : List Datagram) → udp_sendbuffer ds ≡ pos 0) (f : ℕ) (r r' : Bytes)
    (a b : Service) (old : List Datagram)
    (packing : L.result (function f) (integer (pos a.conv)) (string a.buf) ≡ string r) where
  -- A step of the service at x.
  step-Apart :
      (x y : Pc) (w : World L K)
      → may_step x y ≡ true
      → Apart f r r' a b old x y w
      → (w' : World L K) × (turn udp_sendbuffer (at x r a) w ≡ ok (at (advance x) r a) w')
        × (beside x (at y r' b) ≡ at y r' b)
        × Apart f r r' a b old (advance x) y w'
  step-Apart x y w may i = elim (Bool-cases (inside y)) [
    | inl busy ↦
        let out : inside x ≡ false = elim i.one_outside [ inl h ↦ h | inr h ↦ cc ] in
        let other : x ≢ get_global =
          λ e. let held : not (inside y) ≡ true = ap (λ z. may_step z y) (sym e) ∙ may in cc in
        let out' = advance-outside x out other in
        let t =
          turn-outside lua udp_sendbuffer accepts f r a packing w x (part f x r a ++ part f y r' b)
            out other i.stacked in
        (
          t.w',
          t.eq,
          beside-outside x (at y r' b) out other,
          record {
            one_outside = inl out';
            stacked =
                Stacked-eq f (part f x r a ++ part f y r' b)
                  (part f (advance x) r a ++ part f y r' b) t.w'
                  (rw (part-outside f x r a out, part-outside f (advance x) r a out') refl)
                  t.stacked;
            sent =
                InOrder-more (delivered y r' b) old t.sent (delivered-advance x r a)
                  (emitted_first x r a) i.sent;
          },
        )
    | inr free ↦
        let empty = part-outside f y r' b free in
        let alone : part f x r a ++ part f y r' b ≡ part f x r a = rw (empty, append-nil) refl in
        let alone' : part f (advance x) r a ≡ part f (advance x) r a ++ part f y r' b =
          rw (empty, append-nil) refl in
        let t =
          turn-inside lua udp_sendbuffer accepts f r a packing w x
            (Stacked-eq f (part f x r a ++ part f y r' b) (part f x r a) w alone i.stacked) in
        (
          t.w',
          t.eq,
          rw (points-outside y free) refl,
          record {
            one_outside = inr free;
            stacked =
                Stacked-eq f (part f (advance x) r a) (part f (advance x) r a ++ part f y r' b) t.w'
                  alone' t.stacked;
            sent =
                InOrder-more (delivered y r' b) old t.sent (delivered-advance x r a)
                  (emitted_first x r a) i.sent;
          },
        )
  ]

-- The packed packet of a service, and the two services at x and y.
abbrev pub own : (ℕ → Bytes → Bytes) → Service → Bytes
own result s = result s.conv s.buf

abbrev pub two_at : (ℕ → Bytes → Bytes) → Service → Service → Pc → Pc → Pair
two_at result a b x y = record { a = at x (own result a) a; b = at y (own result b) b }

pub and_true : (p q : Bool) → p && q ≡ true → (p ≡ true) × (q ≡ true)
and_true true q e = (refl, e)
and_true false q e = cc

module _ {L : LuaApi} {K : KcpApi} (lua : Lua.IsLawful L) (udp_sendbuffer : List Datagram → ℤ)
    (accepts : (ds : List Datagram) → udp_sendbuffer ds ≡ pos 0) (pk : Packing L) (a b : Service)
    (old : List Datagram) where
  abbrev IsApart : Pc → Pc → World L K → Type 0
  IsApart = Apart pk.f (own pk.result a) (own pk.result b) a b old

  run-IsApart :
      (schedule : List Who) (x y : Pc) (w : World L K)
      → exclusive schedule x y ≡ true
      → IsApart x y w
      → (w' : World L K) × (run udp_sendbuffer schedule (two_at pk.result a b x y) w
          ≡ ok (two_at pk.result a b (walk_first schedule x) (walk_second schedule y)) w')
        × IsApart (walk_first schedule x) (walk_second schedule y) w'
  unfolding run turn_of
  run-IsApart [] x y w e i = (w, refl, i)
  run-IsApart (first ∷ schedule) x y w e i =
      let (may, rest) = and_true (may_step x y) (exclusive schedule (advance x) y) e in
      let (w1, eq, same_other, i1) =
        step-Apart lua udp_sendbuffer accepts pk.f (own pk.result a) (own pk.result b) a b old
          (pk.leaves a.conv a.buf) x y w may i in
      let (w', eq', i') = run-IsApart schedule (advance x) y w1 rest i1 in
      (w', rw (eq, ◌>>=◌, same_other) eq', i')
  run-IsApart (second ∷ schedule) x y w e i =
      let (may, rest) = and_true (may_step y x) (exclusive schedule x (advance y)) e in
      let (w1, eq, same_other, i1) =
        step-Apart lua udp_sendbuffer accepts pk.f (own pk.result b) (own pk.result a) b a old
          (pk.leaves b.conv b.buf) y x w may
          (Apart-swapped pk.f (own pk.result a) (own pk.result b) a b old x y w i) in
      let (w', eq', i') =
        run-IsApart schedule x (advance y) w1 rest
          (Apart-swapped pk.f (own pk.result b) (own pk.result a) b a old (advance y) x w1 i1) in
      (w', rw (eq, ◌>>=◌, same_other) eq', i')

  -- Suppose that `LL` is there with an empty stack, that its `pack_output` is a function every call
  -- of which leaves a string, and that the socket accepts every datagram. Two services that begin to
  -- send a packet each may then be interrupted anywhere, in any order and any number of times, as long
  -- as neither calls `lua_getglobal` while the other is between that call and the end of its call of
  -- the socket: no step is undefined or raises an error, each service is where its own steps lead it
  -- and has read its own packed packet, and the datagrams sent are exactly those of the services that
  -- have come past their call of the socket, each with its own packet.
  pub run-exclusive :
      (schedule : List Who) (w : World L K)
      → exclusive schedule lock lock ≡ true
      → Stacked pk.f [] w
      → w.statics.sent ≡ old
      → (w' : World L K) × (run udp_sendbuffer schedule (two_at pk.result a b lock lock) w
          ≡ ok (two_at pk.result a b (walk_first schedule lock) (walk_second schedule lock)) w')
        × Apart pk.f
            (own pk.result a)
            (own pk.result b)
            a
            b
            old
            (walk_first schedule lock)
            (walk_second schedule lock)
            w'
  run-exclusive schedule w e d sent =
      run-IsApart schedule lock lock w e
        (record { one_outside = inl refl; stacked = d; sent = inl sent })
