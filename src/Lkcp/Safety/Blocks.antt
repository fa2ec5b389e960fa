-- ===== src/Lkcp/Safety/Blocks.antt =====
-- A connection more, or a callback block that is freed at once: neither breaks the invariant.
use lua_kcp_skynet.Prelude.{same, true, some, ◌≡◌, ◌≢◌, sym, ap, ◌∙◌, arith, inl, inr}
use lua_kcp_skynet.Heap.{Ptr, load, alloc, free}
use lua_kcp_skynet.Heap.Laws.{
  load-alloc, load-alloc_old, load-alloc_of, load-fresh, live-alloc, live-free, load-free-alloc,
}
use lua_kcp_skynet.Api.Lua.{LuaApi}
use lua_kcp_skynet.Api.Kcp.{KcpApi}
use lua_kcp_skynet.Machine.{Kcb}
use lua_kcp_skynet.Lkcp.{Callback, World}
use lua_kcp_skynet.Lkcp.Safety.Sound.{Sound}

module _ {L : LuaApi} {K : KcpApi} where
  -- The state with one more connection and one more callback block.
  unfoldable pub added : Callback → K.Ctl → World L K → World L K
  added cb k w = record w {
    callbacks = (alloc w.callbacks cb).1;
    kcps =
        (alloc w.kcps (record { ctl = k; user = some (alloc w.callbacks cb).0; output = true })).1;
  }

  -- No connection has a block that is not allocated yet.
  not_fresh :
      (w : World L K) (cb : Callback) (q d : Ptr) (x : Kcb K.Ctl)
      → Sound w
      → load w.kcps q ≡ some x
      → x.user ≡ some d
      → d ≢ (alloc w.callbacks cb).0
  not_fresh w cb q d x s r u at =
      let (d', cb', u', l, o) = s.owner q x r in
      let is : d' ≡ (alloc w.callbacks cb).0 = same (sym u' ∙ u) ∙ at in
      let there : load w.callbacks (alloc w.callbacks cb).0 ≡ some cb' = rw (sym is) l in
      cc (load-fresh w.callbacks cb)

  pub added-Sound : (cb : Callback) (k : K.Ctl) (w : World L K) → Sound w → Sound (added cb k w)
  unfolding added
  added-Sound cb k w s = record {
    owner = λ q x r. elim (load-alloc_of w.kcps new q x r) [
      | inl (at, is) ↦ (c, cb, cc, load-alloc w.callbacks cb, cc)
      | inr old ↦
          let (d, cb', u, l, o) = s.owner q x old in
          (d, cb', u, load-alloc_old w.callbacks cb d l, o)
    ];
    unique = λ q q' d x x' r r' u u'. elim (load-alloc_of w.kcps new q x r) [
      | inl (at, is) ↦ elim (load-alloc_of w.kcps new q' x' r') [
        | inl (at', is') ↦ at ∙ sym at'
        | inr old' ↦ absurd (not_fresh w cb q' d x' s old' u' (user_new x d is u))
      ]
      | inr old ↦ elim (load-alloc_of w.kcps new q' x' r') [
        | inl (at', is') ↦ absurd (not_fresh w cb q d x s old u (user_new x' d is' u'))
        | inr old' ↦ s.unique q q' d x x' old old' u u'
      ]
    ];
    paired = omega (arith, s.paired, live-alloc w.callbacks cb, live-alloc w.kcps new);
    sized = s.sized;
  }
    where
      c : Ptr
      c = (alloc w.callbacks cb).0

      new : Kcb K.Ctl
      new = record { ctl = k; user = some c; output = true }

      user_new : (x : Kcb K.Ctl) (d : Ptr) → x ≡ new → x.user ≡ some d → d ≡ c
      user_new x d is u = same (sym u ∙ ap (λ (z : Kcb K.Ctl). z.user) is)

  -- The state in which the callback block was freed again.
  unfoldable pub dropped_block : Callback → World L K → World L K
  dropped_block cb w = record w {
    callbacks = free (alloc w.callbacks cb).1 (alloc w.callbacks cb).0;
  }

  pub dropped_block-Sound : (cb : Callback) (w : World L K) → Sound w → Sound (dropped_block cb w)
  unfolding dropped_block
  dropped_block-Sound cb w s = record {
    owner = λ q x r.
        let (d, cb', u, l, o) = s.owner q x r in
        (d, cb', u, load-free-alloc w.callbacks cb d ∙ l, o);
    unique = s.unique;
    paired = omega (
      arith,
      s.paired,
      live-alloc w.callbacks cb,
      live-free (alloc w.callbacks cb).1 (alloc w.callbacks cb).0 (load-alloc w.callbacks cb),
    );
    sized = s.sized;
  }
