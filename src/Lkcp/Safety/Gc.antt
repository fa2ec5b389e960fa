-- ===== src/Lkcp/Safety/Gc.antt =====
-- `kcp_gc`, the finalizer: what it frees, and what a second use of the userdata meets.
use lua_kcp_skynet.Prelude.{
  ℕ, ◌<◌, true, false, none, some, ◌≡◌, ◌≢◌, sym, ap, ◌∙◌, arith, ltb, Bool-cases, inl, inr,
  if◌then◌else◌,
}
use lua_kcp_skynet.Prelude.Word.{int_of_u64}
use lua_kcp_skynet.Heap.{Ptr, Heap, load, write, free}
use lua_kcp_skynet.Heap.Laws.{
  load-write, load-free_self, load-free_ne, load-free_cases, free-write, live-free,
}
use lua_kcp_skynet.Outcome.{ok, fault, ◌>>=◌}
use lua_kcp_skynet.Outcome.Rules.{ok-injective}
use lua_kcp_skynet.Api.Lua.{kcp, LuaApi}
use lua_kcp_skynet.Api.Lua
use lua_kcp_skynet.Api.Kcp.{KcpApi}
use lua_kcp_skynet.Machine.{
  Kcb, slot, check_kcp, load_kcp, store_kcp, load_callback, store_callback, free_callback, release,
  drop_reference,
}
use lua_kcp_skynet.Machine.Steps.{guarded-dangling}
use lua_kcp_skynet.Lkcp.{
  Callback, World, kcp_gc, gc_block, free_user, clear_block, unref, lkcp_methods, lkcp_recv,
  lkcp_send, lkcp_update, lkcp_check, lkcp_input, lkcp_flush, lkcp_wndsize, lkcp_nodelay, Method,
  recv, send, update, check, input, flush, wndsize, nodelay,
}
use lua_kcp_skynet.Lkcp.Safety.Sound.{Sound, Open}

-- Writes before a `free` leave no trace.
free-writes :
    {A : Type 0} (h : Heap A) (p : Ptr) (a b : A) → free (write (write h p a) p b) p ≡ free h p
free-writes h p a b = free-write (write h p a) p b ∙ free-write h p a

module _ {L : LuaApi} {K : KcpApi} where
  -- The state without the connection p, its block c, and the reference that c holds.
  abbrev pub collected : Ptr → Ptr → Callback → World L K → World L K
  collected p c cb w = record w {
    vm = if ltb 0 cb.handle then L.drop_reference (int_of_u64 cb.handle) w.vm else w.vm;
    kcps = free w.kcps p;
    callbacks = free w.callbacks c;
  }

  -- The finalizer's last steps, from the state in which the reference is dropped.
  clear_block-eq :
      (p c : Ptr) (cb : Callback) (b : Kcb K.Ctl) (w : World L K)
      → load w.callbacks c ≡ some cb
      → load w.kcps p ≡ some b
      → clear_block p c w
        ≡ ok tt (record w {
          callbacks = free w.callbacks c;
          kcps = write w.kcps p (record b { user = none });
        })
  unfolding clear_block load_kcp store_kcp load_callback store_callback free_callback
  clear_block-eq p c cb b w e e' = ground (
    arith,
    load-write w.callbacks c (record cb { l = none; el = none }) cb e,
    free-write w.callbacks c (record cb { l = none; el = none }),
  )

  free_user-eq :
      (p c : Ptr) (cb : Callback) (b : Kcb K.Ctl) (creator : ℕ) (w : World L K)
      → load w.callbacks c ≡ some cb
      → load w.kcps p ≡ some b
      → cb.l ≡ some creator
      → L.is_alive w.vm creator ≡ true
      → free_user p (some c) w
        ≡ ok tt (record (collected p c cb w) { kcps = write w.kcps p (record b { user = none }) })
  unfolding free_user unref load_callback store_callback drop_reference
  free_user-eq p c cb b creator w e e' l alive = elim (Bool-cases (ltb 0 cb.handle)) [
    | inl has ↦ rw (has) (
        ground (
          arith,
          clear_block-eq p c (record cb { handle = 0 }) b
              (record w {
                vm = L.drop_reference (int_of_u64 cb.handle) w.vm;
                callbacks = write w.callbacks c (record cb { handle = 0 });
              })
              (load-write w.callbacks c (record cb { handle = 0 }) cb e) e',
          free-write w.callbacks c (record cb { handle = 0 }),
        ))
    | inr no_ref ↦ rw (no_ref) (ground (arith, clear_block-eq p c cb b w e e'))
  ]

  pub record IsHeld (t p c : Ptr) (cb : Callback) (w : World L K) : Type 0 where
    pub open_pc : Open p c w
    pub self : slot t 1 w ≡ some (kcp (some p))
    pub callback : load w.callbacks c ≡ some cb
    pub creator : ℕ
    pub creator_l : cb.l ≡ some creator
    pub creator_alive : L.is_alive w.vm creator ≡ true

  -- With the creating thread alive, a collection frees the connection and its callback block, drops
  -- the reference to the output function, and touches nothing else.
  pub kcp_gc-eq :
      (t p c : Ptr) (cb : Callback) (w : World L K)
      → IsHeld t p c cb w
      → kcp_gc t w ≡ ok 0 (collected p c cb w)
  unfolding kcp_gc gc_block check_kcp load_kcp release
  kcp_gc-eq t p c cb w h = ground (
    arith,
    h.self,
    h.open_pc.held,
    h.open_pc.user,
    free_user-eq p c cb h.open_pc.b h.creator w h.callback h.open_pc.held h.creator_l
        h.creator_alive,
    load-write w.kcps p (record h.open_pc.b { user = none }) h.open_pc.b h.open_pc.held,
    free-write w.kcps p (record h.open_pc.b { user = none }),
  )

  -- The connections that stay keep their own callback blocks.
  collected-owner :
      (p c : Ptr) (cb : Callback) (w : World L K) (q : Ptr) (x : Kcb K.Ctl)
      → Open p c w
      → load (free w.kcps p) q ≡ some x
      → (d : Ptr) × (cb' : Callback) × (x.user ≡ some d)
        × (load (free w.callbacks c) d ≡ some cb')
        × (x.output ≡ true)
  collected-owner p c cb w q x i r =
      let (differ, old) = load-free_cases w.kcps p q x r in
      let (d, cb', u, l, o) = i.sound.owner q x old in
      let other : c ≢ d =
        λ same. differ (i.sound.unique p q d i.b x i.held old (i.user ∙ ap some same) u) in
      (d, cb', u, load-free_ne w.callbacks c d other ∙ l, o)

  collected-Sound :
      (p c : Ptr) (cb : Callback) (w : World L K)
      → load w.callbacks c ≡ some cb
      → Open p c w
      → Sound (collected p c cb w)
  collected-Sound p c cb w e i = record {
    owner = λ q x r. collected-owner p c cb w q x i r;
    unique = λ q q' d x x' r r'.
        i.sound.unique q q' d x x' (load-free_cases w.kcps p q x r).1
          (load-free_cases w.kcps p q' x' r').1;
    paired = omega (arith, i.sound.paired, live-free w.kcps p i.held, live-free w.callbacks c e);
    sized = i.sound.sized;
  }

  dangling_method :
      (m : Method) (t p : Ptr) (w : World L K)
      → slot t 1 w ≡ some (kcp (some p))
      → load w.kcps p ≡ none
      → lkcp_methods m t w ≡ fault
  unfolding lkcp_methods lkcp_recv lkcp_send lkcp_update lkcp_check lkcp_input lkcp_flush
      lkcp_wndsize lkcp_nodelay
  dangling_method recv t p w s e = guarded-dangling t p _ w s e
  dangling_method send t p w s e = guarded-dangling t p _ w s e
  dangling_method update t p w s e = guarded-dangling t p _ w s e
  dangling_method check t p w s e = guarded-dangling t p _ w s e
  dangling_method input t p w s e = guarded-dangling t p _ w s e
  dangling_method flush t p w s e = guarded-dangling t p _ w s e
  dangling_method wndsize t p w s e = guarded-dangling t p _ w s e
  dangling_method nodelay t p w s e = guarded-dangling t p _ w s e

  -- A call on a userdata whose connection was freed reads freed memory.
  pub dangling :
      (m : Method) (t p : Ptr) (w : World L K)
      → slot t 1 w ≡ some (kcp (some p))
      → load w.kcps p ≡ none
      → (lkcp_methods m t w ≡ fault) × (kcp_gc t w ≡ fault)
  unfolding kcp_gc gc_block check_kcp load_kcp
  dangling m t p w s e = (dangling_method m t p w s e, rw (s, e, ◌>>=◌))

  -- With the creating thread alive, the finalizer of a connection returns, the invariant holds
  -- afterwards, the connection and its callback block are freed, and no other block is touched.
  pub kcp_gc-Sound :
      (t p c : Ptr) (cb : Callback) (w : World L K)
      → IsHeld t p c cb w
      → (w' : World L K) × (kcp_gc t w ≡ ok 0 w')
        × Sound w'
        × (load w'.kcps p ≡ none)
        × (load w'.callbacks c ≡ none)
        × ((q : Ptr) → p ≢ q → load w'.kcps q ≡ load w.kcps q)
        × ((d : Ptr) → c ≢ d → load w'.callbacks d ≡ load w.callbacks d)
  kcp_gc-Sound t p c cb w h = (
    collected p c cb w,
    kcp_gc-eq t p c cb w h,
    collected-Sound p c cb w h.callback h.open_pc,
    load-free_self w.kcps p,
    load-free_self w.callbacks c,
    λ q d. load-free_ne w.kcps p q d,
    λ q d. load-free_ne w.callbacks c q d,
  )

  -- The finalizer leaves the pointer in the userdata: whatever is called on it next, a method or
  -- the finalizer again, is undefined behaviour.
  pub kcp_gc_twice :
      Lua.IsLawful L
      → (t p c : Ptr) (cb : Callback) (w w' : World L K) (m : Method) → IsHeld t p c cb w
      → kcp_gc t w ≡ ok 0 w'
      → (lkcp_methods m t w' ≡ fault) × (kcp_gc t w' ≡ fault)
  kcp_gc_twice lua t p c cb w w' m h e =
      let is : w' ≡ collected p c cb w = ok-injective (sym e ∙ kcp_gc-eq t p c cb w h) in
      rw is (dangling m t p (collected p c cb w) (same_slot ∙ h.self) (load-free_self w.kcps p))
    where
      same_slot : slot t 1 (collected p c cb w) ≡ slot t 1 w
      same_slot = elim (Bool-cases (ltb 0 cb.handle)) [
        | inl has ↦ rw (has, lua.slots-drop (int_of_u64 cb.handle) w.vm t)
        | inr no_ref ↦ rw no_ref
      ]

  -- The reference is dropped through the thread that made the connection. Once that thread is
  -- collected, the finalizer of a connection that holds a reference is undefined behaviour.
  pub kcp_gc_orphan :
      (t p c l : Ptr) (cb : Callback) (w : World L K)
      → Open p c w
      → slot t 1 w ≡ some (kcp (some p))
      → load w.callbacks c ≡ some cb
      → 0 < cb.handle
      → cb.l ≡ some l
      → L.is_alive w.vm l ≡ false
      → kcp_gc t w ≡ fault
  unfolding kcp_gc gc_block free_user unref check_kcp load_kcp load_callback drop_reference
  kcp_gc_orphan t p c l cb w i s e has creator dead = ground (arith, i.held, i.user)
