-- ===== src/Lkcpsn/Calls.antt =====
-- A method or a collection of lkcpsn.c with any arguments keeps the invariant, and updates or removes
-- the session in the first slot.
use lua_kcp_skynet.Sender.{Packing}
use lua_kcp_skynet.Prelude.{ℕ, none, some, ◌≡◌, inl, inr, ◌⊎◌, refl, List, Option-cases}
use lua_kcp_skynet.Prelude.Int.{ℤ}
use lua_kcp_skynet.Heap.{Ptr, load}
use lua_kcp_skynet.Outcome.{◌>>=◌}
use lua_kcp_skynet.Outcome.Rules.{Ends, returns, raises, mono, of_ok}
use lua_kcp_skynet.Api.Lua.{Bytes, Value, nil, integer, string, function, kcp, LuaApi}
use lua_kcp_skynet.Api.Lua
use lua_kcp_skynet.Api.Kcp.{KcpApi}
use lua_kcp_skynet.Api.Kcp
use lua_kcp_skynet.Machine.{Kcb, slot, check_kcp, in_slot, as_kcp}
use lua_kcp_skynet.Machine.Args.{kcp_of, guarded-any}
use lua_kcp_skynet.Addresses.{Datagram, World}
use lua_kcp_skynet.Lkcpsn.{
  Method, recv, send, update, check, input, flush, wndsize, nodelay, lkcp_methods, lkcp_recv,
  lkcp_send, lkcp_update, lkcp_check, lkcp_input, lkcp_flush, lkcp_wndsize, lkcp_nodelay, kcp_gc,
  gc_block,
}
use lua_kcp_skynet.Lkcpsn.Collect.{without, without-Sound}
use lua_kcp_skynet.Lkcpsn.Gc.{kcp_gc-eq}
use lua_kcp_skynet.Lkcpsn.Isolation.{Confined, lkcp_methods-Confined}
use lua_kcp_skynet.Lkcpsn.Sessions.{session}
use lua_kcp_skynet.Lkcpsn.Sessions.Steps.{
  Unchanged, Updated, Removed, Confined-Updated, without-Removed,
}
use lua_kcp_skynet.Lkcpsn.Sessions.Create.{Kept}
use lua_kcp_skynet.Lkcpsn.Running.{Running, Running-on_vm, Running-of}

module _ {L : LuaApi} {K : KcpApi} (lua : Lua.IsLawful L) (lawful : Kcp.IsLawful K)
    (udp_sendbuffer : List Datagram → ℤ) (pk : Packing L) (t : ℕ) (w : World L K)
    (i : Running pk.f w)
    (live_arg : (p : Ptr)
      → slot t 1 w ≡ some (kcp (some p))
      → (b : Kcb K.Ctl) × (load w.kcps p ≡ some b)) where
  -- The invariant holds, and the sessions are as they were, or that in the first slot was updated.
  abbrev pub Served : World L K → Type 0
  Served w' =
      Running pk.f w' × (Unchanged (session w) (session w') ⊎ Updated t w (session w) (session w'))

  Served-on_vm : (w1 : World L K) (m : L.Vm) → Served w1 → Served (record w1 { vm = m })
  unfolding session
  Served-on_vm w1 m (i1, inl same) = (Running-on_vm pk.f w1 m i1, inl same)
  Served-on_vm w1 m (i1, inr updated) = (Running-on_vm pk.f w1 m i1, inr updated)

  served :
      (p : Ptr) (b : Kcb K.Ctl) (held : load w.kcps p ≡ some b) (w' : World L K)
      → slot t 1 w ≡ some (kcp (some p))
      → Confined pk.f p
          (i.sound.owner p b held).c
          (i.sound.owner p b held).a
          (i.sound.owner p b held).block
          w
          w'
      → Served w'
  served p b held w' self x = (
    record { sound = x.whole.open_pc.sound; shared = x.whole.shared },
    inr (Confined-Updated w i.sound pk.f t p b held w' self x),
  )

  on_connection :
      (m : Method) (p : Ptr)
      → slot t 1 w ≡ some (kcp (some p))
      → Ends (λ _. Served) Served (lkcp_methods udp_sendbuffer m t w)
  on_connection m p self =
      let (b, held) = live_arg p self in
      let o = i.sound.owner p b held in
      mono
        (lkcp_methods-Confined lua lawful udp_sendbuffer pk p o.c m t o.a o.cb o.block w self
          (record {
            open_pc = record { sound = i.sound; b = b; held = held; user = o.user };
            shared = i.shared;
          })
          o.callback o.address o.content)
        (λ _ w'. served p b held w' self) (λ w'. served p b held w' self)

  -- A method with any arguments, as long as a connection among them is alive.
  pub lkcp_methods-Served :
      (m : Method) → Ends (λ _. Served) Served (lkcp_methods udp_sendbuffer m t w)
  unfolding lkcp_methods lkcp_recv lkcp_send lkcp_update lkcp_check lkcp_input lkcp_flush
      lkcp_wndsize lkcp_nodelay
  lkcp_methods-Served recv =
      guarded-any Served Served-on_vm t _ w (i, inl (λ q. refl)) (on_connection recv)
  lkcp_methods-Served send =
      guarded-any Served Served-on_vm t _ w (i, inl (λ q. refl)) (on_connection send)
  lkcp_methods-Served update =
      guarded-any Served Served-on_vm t _ w (i, inl (λ q. refl)) (on_connection update)
  lkcp_methods-Served check =
      guarded-any Served Served-on_vm t _ w (i, inl (λ q. refl)) (on_connection check)
  lkcp_methods-Served input =
      guarded-any Served Served-on_vm t _ w (i, inl (λ q. refl)) (on_connection input)
  lkcp_methods-Served flush =
      guarded-any Served Served-on_vm t _ w (i, inl (λ q. refl)) (on_connection flush)
  lkcp_methods-Served wndsize =
      guarded-any Served Served-on_vm t _ w (i, inl (λ q. refl)) (on_connection wndsize)
  lkcp_methods-Served nodelay =
      guarded-any Served Served-on_vm t _ w (i, inl (λ q. refl)) (on_connection nodelay)

module _ {L : LuaApi} {K : KcpApi} (f t : ℕ) (w : World L K) (i : Running f w) where
  -- The invariant holds, and the sessions are as they were, but for that in the first slot, which is
  -- gone if there was one.
  abbrev pub Collected : World L K → Type 0
  Collected w' =
      Running f w' × (Unchanged (session w) (session w') ⊎ Removed t w (session w) (session w'))

  collect-Removed :
      (p : Ptr) (b : Kcb K.Ctl)
      → slot t 1 w ≡ some (kcp (some p))
      → load w.kcps p ≡ some b
      → Ends (λ _. Collected) (Kept f w) (kcp_gc t w)
  collect-Removed p b self held =
      let o = i.sound.owner p b held in
      of_ok
        (kcp_gc-eq t p o.c o.a o.cb w
          (record {
            b = b;
            held = held;
            user = o.user;
            callback = o.callback;
            address = o.address;
            block = o.block;
            content = o.content;
            size = o.size;
          })
          self)
        (
          Running-of f w (without w i.sound p b held) refl i.shared
              (without-Sound w i.sound p b held),
          inr (without-Removed w i.sound t p b held self),
        )

  -- The finalizer with any argument, as long as a connection was not collected before.
  pub kcp_gc-Ends :
      ((p : Ptr) → slot t 1 w ≡ some (kcp (some p)) → (b : Kcb K.Ctl) × (load w.kcps p ≡ some b))
      → Ends (λ _. Collected) (Kept f w) (kcp_gc t w)
  unfolding kcp_gc gc_block check_kcp
  kcp_gc-Ends arg = elim (Option-cases (in_slot as_kcp (slot t 1 w))) [
    | inl e ↦ rw (e, ◌>>=◌) (raises (i, λ q. refl))
    | inr (none, e) ↦ rw (e, ◌>>=◌) (returns (i, inl (λ q. refl)))
    | inr (some p, e) ↦
        let self = kcp_of (slot t 1 w) (some p) e in
        let (b, held) = arg p self in collect-Removed p b self held
  ]
