-- ===== src/Together/Progress.antt =====
-- Two services that keep apart on the stack of `LL` are never in each other's way for good.
use lua_kcp_skynet.Sender.{Packing}
use lua_kcp_skynet.Prelude.{
  ◌≤◌, true, false, List, [], ◌∷◌, ◌++◌, ◌≡◌, ◌⊎◌, inl, inr, refl, sym, subst, arith, replicate,
}
use mathlib.Core.List.{append-nil}
use lua_kcp_skynet.Prelude.Int.{ℤ, pos}
use lua_kcp_skynet.Outcome.{ok}
use lua_kcp_skynet.Api.Lua.{Bytes, LuaApi}
use lua_kcp_skynet.Api.Lua
use lua_kcp_skynet.Api.Kcp.{KcpApi}
use lua_kcp_skynet.Addresses.{Datagram, World}
use lua_kcp_skynet.Together.{Pc, lock, done, Service, Who, first, second, run}
use lua_kcp_skynet.Together.Steps.{Stacked}
use lua_kcp_skynet.Together.Places.{inside}
use lua_kcp_skynet.Together.Schedules.{
  exclusive, walk_first, walk_second, Apart, own, two_at, run-exclusive,
}
use lua_kcp_skynet.Together.Finish.{ahead, turns_first, turns_second}
use lua_kcp_skynet.Together.Walks.{
  works, works-walk_first, works-walk_second, exclusive-append, walk_first-done, walk_second-done,
  ahead_le, ahead-walk_first, ahead-walk_second, exclusive-first, exclusive-second,
  turns_first-append, turns_second-append, firsts, seconds,
}

-- A schedule by which the two come to their ends: that which is on the stack goes first.
record Finishing (x y : Pc) : Type 0 where
  rest : List Who
  apart : exclusive rest x y ≡ true
  turns_x : turns_first rest ≡ ahead x
  turns_y : turns_second rest ≡ ahead y

module _ (x y : Pc) (works_x : works x ≡ true) (works_y : works y ≡ true) where
  abbrev to_end : List Who
  to_end = replicate (ahead x) first

  abbrev to_end' : List Who
  to_end' = replicate (ahead y) second

  end_x : walk_first to_end x ≡ done
  end_x = walk_first-done to_end x works_x (omega (arith, (firsts (ahead x)).0))

  end_y : walk_second to_end' y ≡ done
  end_y = walk_second-done to_end' y works_y (omega (arith, (seconds (ahead y)).1))

  finishing : (inside x ≡ false) ⊎ (inside y ≡ false) → Finishing x y
  finishing (inr out) = record {
    rest = to_end ++ to_end';
    apart =
        exclusive-first (ahead x) x y to_end' out
          (rw (end_x, sym (append-nil to_end')) (exclusive-second (ahead y) done y [] refl refl));
    turns_x =
        omega
          (arith, turns_first-append to_end to_end', (firsts (ahead x)).0, (seconds (ahead y)).0);
    turns_y =
        omega
          (arith, turns_second-append to_end to_end', (firsts (ahead x)).1, (seconds (ahead y)).1);
  }
  finishing (inl out) = record {
    rest = to_end' ++ to_end;
    apart =
        exclusive-second (ahead y) x y to_end out
          (rw (end_y, sym (append-nil to_end)) (exclusive-first (ahead x) x done [] refl refl));
    turns_x =
        omega
          (arith, turns_first-append to_end' to_end, (firsts (ahead x)).0, (seconds (ahead y)).0);
    turns_y =
        omega
          (arith, turns_second-append to_end' to_end, (firsts (ahead x)).1, (seconds (ahead y)).1);
  }

module _ {L : LuaApi} {K : KcpApi} (lua : Lua.IsLawful L) (udp_sendbuffer : List Datagram → ℤ)
    (accepts : (ds : List Datagram) → udp_sendbuffer ds ≡ pos 0) (pk : Packing L) (a b : Service)
    (old : List Datagram) where
  -- Both packets are out, each once, and the stack of `LL` is empty.
  pub record Delivered (w : World L K) : Type 0 where
    pub stacked : Stacked pk.f [] w
    pub sent :
        (w.statics.sent ≡ a.envelope (own pk.result a) ∷ b.envelope (own pk.result b) ∷ old)
        ⊎ (w.statics.sent ≡ b.envelope (own pk.result b) ∷ a.envelope (own pk.result a) ∷ old)

  abbrev CameTo : List Who → World L K → Pc → Pc → Type 0
  CameTo schedule w x y =
      (w' : World L K) × (run udp_sendbuffer schedule (two_at pk.result a b lock lock) w
        ≡ ok (two_at pk.result a b x y) w')
      × Apart pk.f (own pk.result a) (own pk.result b) a b old x y w'

  -- A schedule that keeps the two apart and gives each its ten turns.
  run-Delivered :
      (schedule : List Who) (w : World L K)
      → exclusive schedule lock lock ≡ true
      → 10 ≤ turns_first schedule
      → 10 ≤ turns_second schedule
      → Stacked pk.f [] w
      → w.statics.sent ≡ old
      → (w' : World L K) × (run udp_sendbuffer schedule (two_at pk.result a b lock lock) w
          ≡ ok (two_at pk.result a b done done) w')
        × Delivered w'
  run-Delivered schedule w apart enough enough' d sent =
      let x_end = walk_first-done schedule lock refl enough in
      let y_end = walk_second-done schedule lock refl enough' in
      let came = run-exclusive lua udp_sendbuffer accepts pk a b old schedule w apart d sent in
      let (w', e, i) =
        subst (λ y. CameTo schedule w done y) y_end
          (subst (λ x. CameTo schedule w x (walk_second schedule lock)) x_end came) in
      (
        w',
        e,
        record {
          stacked = record {
            m = i.stacked.m;
            ll = i.stacked.ll;
            stack = i.stacked.stack;
            packs = i.stacked.packs;
          };
          sent = i.sent;
        },
      )

  -- Suppose that `LL` is there with an empty stack, that its `pack_output` is a function every call
  -- of which leaves a string, and that the socket accepts every datagram. Two services that keep apart,
  -- so that neither calls `lua_getglobal` while the other is between that call and the end of its call
  -- of the socket, can never get stuck, wherever they were interrupted: every schedule by which they
  -- kept apart so far has a continuation of at most ten turns each in which they still do, and after
  -- it both services are at the end, each packet went out exactly once, in its own datagram, and the
  -- stack of `LL` is empty.
  pub run-completes :
      (schedule : List Who) (w : World L K)
      → exclusive schedule lock lock ≡ true
      → Stacked pk.f [] w
      → w.statics.sent ≡ old
      → (rest : List Who) × (exclusive (schedule ++ rest) lock lock ≡ true)
        × (turns_first rest ≤ 10)
        × (turns_second rest ≤ 10)
        × (w' : World L K) × (run udp_sendbuffer
              (schedule ++ rest)
              (two_at pk.result a b lock lock)
              w
            ≡ ok (two_at pk.result a b done done) w')
        × Delivered w'
  run-completes schedule w apart d sent =
      let (v, e, i) = run-exclusive lua udp_sendbuffer accepts pk a b old schedule w apart d sent in
      let x = walk_first schedule lock in
      let y = walk_second schedule lock in
      let z =
        finishing x y (works-walk_first schedule lock refl) (works-walk_second schedule lock refl)
          i.one_outside in
      let all = exclusive-append schedule z.rest lock lock apart z.apart in
      let (w', e', done_both) =
        run-Delivered (schedule ++ z.rest) w all
          (omega (
            arith,
            turns_first-append schedule z.rest,
            z.turns_x,
            ahead-walk_first schedule lock refl,
          ))
          (omega (
            arith,
            turns_second-append schedule z.rest,
            z.turns_y,
            ahead-walk_second schedule lock refl,
          ))
          d sent in
      (
        z.rest,
        all,
        omega (arith, z.turns_x, ahead_le x),
        omega (arith, z.turns_y, ahead_le y),
        w',
        e',
        done_both,
      )
