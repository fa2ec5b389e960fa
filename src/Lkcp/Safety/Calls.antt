-- ===== src/Lkcp/Safety/Calls.antt =====
-- A call of a function of lkcp.c with any arguments keeps the invariant.
use lua_kcp_skynet.Prelude.{ℕ, List, ◌∷◌, none, some, ◌≡◌, inl, inr, true, Option-cases}
use lua_kcp_skynet.Prelude.Word.{u32, u64, int32}
use lua_kcp_skynet.Heap.{Ptr, load, alloc}
use lua_kcp_skynet.Heap.Laws.{load-alloc, write-alloc}
use lua_kcp_skynet.Outcome.{◌>>=◌}
use lua_kcp_skynet.Outcome.Rules.{Ends, returns, raises, bind, mono, or_raise-Ends, of_ok}
use lua_kcp_skynet.Api.Lua.{
  Value, nil, integer, string, function, kcp, recv_buffer, light, other, LuaApi,
}
use lua_kcp_skynet.Api.Lua
use lua_kcp_skynet.Api.Kcp.{KcpApi}
use lua_kcp_skynet.Api.Kcp
use lua_kcp_skynet.Machine.{
  Kcb, slot, check_integer, alloc_callback, create, check_kcp, in_slot, as_kcp,
}
use lua_kcp_skynet.Machine.Steps.{new_reference-ok, create-ok, create-null, bare}
use lua_kcp_skynet.Machine.Args.{kcp_of, guarded-any}
use lua_kcp_skynet.Lkcp.{
  Callback, World, Method, lkcp_methods, lkcp_create, kcp_gc, gc_block, created, lkcp_recv,
  lkcp_send, lkcp_update, lkcp_check, lkcp_input, lkcp_flush, lkcp_wndsize, lkcp_nodelay, recv,
  send, update, check, input, flush, wndsize, nodelay,
}
use lua_kcp_skynet.Lkcp.Safety.Sound.{Sound, Sound-on_vm}
use lua_kcp_skynet.Lkcp.Safety.Methods.{lkcp_methods-Ends}
use lua_kcp_skynet.Lkcp.Safety.Gc.{kcp_gc-Sound}
use lua_kcp_skynet.Lkcp.Safety.Create.{created-some, created-none}
use lua_kcp_skynet.Lkcp.Safety.Blocks.{added, added-Sound, dropped_block, dropped_block-Sound}

module _ {L : LuaApi} {K : KcpApi} where
  -- From the allocation of the callback block on.
  connect-Ends :
      (t conv : ℕ) (cb : Callback) (w : World L K)
      → Sound w
      → Ends
          (λ _. Sound)
          Sound
          ((alloc_callback cb >>= λ c. create conv c >>= λ p. created t c p) w)
  unfolding alloc_callback added dropped_block
  connect-Ends t conv cb w s = elim (Option-cases (K.create conv)) [
    | inl e ↦
        rw
          (
            create-null conv (alloc w.callbacks cb).0
                (record w { callbacks = (alloc w.callbacks cb).1 }) e,
            ◌>>=◌,
            created-none t (alloc w.callbacks cb).0 cb
                (record w { callbacks = (alloc w.callbacks cb).1 }) (load-alloc w.callbacks cb),
          )
          (returns (Sound-on_vm (dropped_block cb w) _ (dropped_block-Sound cb w s)))
    | inr (k, e) ↦
        let c = (alloc w.callbacks cb).0 in
        let w1 : World L K = record w { callbacks = (alloc w.callbacks cb).1 } in
        rw
          (
            create-ok conv c k w1 e,
            ◌>>=◌,
            created-some t c (alloc w.kcps (bare k c)).0 (bare k c)
                (record w1 { kcps = (alloc w.kcps (bare k c)).1 }) (load-alloc w.kcps (bare k c)),
            write-alloc w.kcps (bare k c) (record (bare k c) { output = true }),
          )
          (returns (Sound-on_vm (added cb k w) _ (added-Sound cb k w s)))
  ]

  check_integer-Sound :
      (t n : ℕ) (w : World L K) → Sound w → Ends (λ _. Sound) Sound (check_integer t n w)
  unfolding check_integer
  check_integer-Sound t n w s = or_raise-Ends _ _ w s

  -- A creation with at least one argument, whatever the arguments are.
  pub lkcp_create-Ends :
      (t : ℕ) (w : World L K) (v : Value) (vs : List Value)
      → L.slots w.vm t ≡ v ∷ vs
      → Sound w
      → Ends (λ _. Sound) Sound (lkcp_create t w)
  unfolding lkcp_create
  lkcp_create-Ends t w v vs e s =
      let (r, m) = L.new_reference t w.vm in
      let cb : Callback = record { handle = u64 r; l = some t; el = some t } in
      rw (new_reference-ok t w v vs e, ◌>>=◌)
        (bind
          {k = λ conv.
            alloc_callback cb >>= λ c. create (u32 (int32 conv)) c >>= λ p. created t c p}
          (check_integer-Sound t 1 (record w { vm = m }) (Sound-on_vm w m s))
          (λ conv w' s'. connect-Ends t (u32 (int32 conv)) cb w' s'))

module _ {L : LuaApi} {K : KcpApi} (lua : Lua.IsLawful L) (lawful : Kcp.IsLawful K) (t : ℕ)
    (w : World L K) (s : Sound w)
    (live_arg : (p : Ptr)
      → slot t 1 w ≡ some (kcp (some p))
      → (b : Kcb K.Ctl) × (load w.kcps p ≡ some b)) where
  on_connection :
      (m : Method) (p : Ptr)
      → slot t 1 w ≡ some (kcp (some p))
      → Ends (λ _. Sound) Sound (lkcp_methods m t w)
  on_connection m p self =
      let (b, held) = live_arg p self in
      let (c, cb, user, l, o) = s.owner p b held in
      mono
        (lkcp_methods-Ends lua lawful p c m t w self
          (record { sound = s; b = b; held = held; user = user }))
        (λ _ w' i. i.sound) (λ w' i. i.sound)

  -- A method with any arguments, as long as a connection among them is alive.
  pub lkcp_methods-Sound : (m : Method) → Ends (λ _. Sound) Sound (lkcp_methods m t w)
  unfolding lkcp_methods lkcp_recv lkcp_send lkcp_update lkcp_check lkcp_input lkcp_flush
      lkcp_wndsize lkcp_nodelay
  lkcp_methods-Sound recv = guarded-any Sound Sound-on_vm t _ w s (on_connection recv)
  lkcp_methods-Sound send = guarded-any Sound Sound-on_vm t _ w s (on_connection send)
  lkcp_methods-Sound update = guarded-any Sound Sound-on_vm t _ w s (on_connection update)
  lkcp_methods-Sound check = guarded-any Sound Sound-on_vm t _ w s (on_connection check)
  lkcp_methods-Sound input = guarded-any Sound Sound-on_vm t _ w s (on_connection input)
  lkcp_methods-Sound flush = guarded-any Sound Sound-on_vm t _ w s (on_connection flush)
  lkcp_methods-Sound wndsize = guarded-any Sound Sound-on_vm t _ w s (on_connection wndsize)
  lkcp_methods-Sound nodelay = guarded-any Sound Sound-on_vm t _ w s (on_connection nodelay)

module _ {L : LuaApi} {K : KcpApi} where
  -- The connection p is alive, and so is the thread that made it.
  pub record IsCollectable (w : World L K) (p : Ptr) : Type 0 where
    pub b : Kcb K.Ctl
    pub held : load w.kcps p ≡ some b
    pub creator :
        (c : Ptr) (cb : Callback)
        → load w.callbacks c ≡ some cb
        → b.user ≡ some c
        → (l : ℕ) × (cb.l ≡ some l) × (L.is_alive w.vm l ≡ true)

module _ {L : LuaApi} {K : KcpApi} (t : ℕ) (w : World L K) (s : Sound w) where
  collect-Sound :
      (p : Ptr)
      → slot t 1 w ≡ some (kcp (some p))
      → IsCollectable w p
      → Ends (λ _. Sound) Sound (kcp_gc t w)
  collect-Sound p self x =
      let (c, cb, user, at_c, o) = s.owner p x.b x.held in
      let (l, made_by, alive) = x.creator c cb at_c user in
      let (w', e, s', _, _, _, _) = kcp_gc-Sound t p c cb w (record {
        open_pc = record { sound = s; b = x.b; held = x.held; user = user };
        self = self;
        callback = at_c;
        creator = l;
        creator_l = made_by;
        creator_alive = alive;
      }) in
      of_ok e s'

  -- The finalizer with any argument, as long as a connection can be collected.
  pub kcp_gc-Ends :
      ((p : Ptr) → slot t 1 w ≡ some (kcp (some p)) → IsCollectable w p)
      → Ends (λ _. Sound) Sound (kcp_gc t w)
  unfolding kcp_gc gc_block check_kcp
  kcp_gc-Ends arg = elim (Option-cases (in_slot as_kcp (slot t 1 w))) [
    | inl e ↦ rw (e, ◌>>=◌) (raises s)
    | inr (none, e) ↦ rw (e, ◌>>=◌) (returns s)
    | inr (some p, e) ↦
        let self = kcp_of (slot t 1 w) (some p) e in collect-Sound p self (arg p self)
  ]
