-- ===== src/Lkcp/Safety/Sound.antt =====
-- The invariant of the two heaps of lkcp.c, and the writes that keep it.
use native.Mathlib.Decide.{ℕ_discrete}
use lua_kcp_skynet.Prelude.{true, some, ◌≡◌, inl, inr, refl, sym, ◌∙◌, ap, arith}
use lua_kcp_skynet.Heap.{Ptr, load, write, live}
use lua_kcp_skynet.Heap.Laws.{load-write, load-write_ne, load-write_cases, live-write}
use lua_kcp_skynet.Api.Lua.{LuaApi}
use lua_kcp_skynet.Api.Kcp.{KcpApi}
use lua_kcp_skynet.Machine.{Kcb}
use lua_kcp_skynet.Machine.Rules.{Frame, Connected}
use lua_kcp_skynet.Lkcp.{Callback, World, recv_buffer_len}

module _ {L : LuaApi} {K : KcpApi} where
  -- Every connection has its output set and a callback block of its own, there are no other
  -- callback blocks, and the receive buffer has its size.
  pub record Sound (w : World L K) : Type 0 where
    pub owner :
        (p : Ptr) (b : Kcb K.Ctl)
        → load w.kcps p ≡ some b
        → (c : Ptr) × (cb : Callback) × (b.user ≡ some c)
          × (load w.callbacks c ≡ some cb)
          × (b.output ≡ true)
    pub unique :
        (p q c : Ptr) (a b : Kcb K.Ctl)
        → load w.kcps p ≡ some a
        → load w.kcps q ≡ some b
        → a.user ≡ some c
        → b.user ≡ some c
        → p ≡ q
    pub paired : live w.callbacks ≡ live w.kcps
    pub sized : w.buffer.size ≡ recv_buffer_len

  -- The virtual machine has no part in it.
  pub Sound-on_vm : (w : World L K) (m : L.Vm) → Sound w → Sound (record w { vm = m })
  Sound-on_vm w m s = record {
    owner = s.owner;
    unique = s.unique;
    paired = s.paired;
    sized = s.sized;
  }

  pub Sound-store_kcp :
      (w : World L K) (p : Ptr) (a b : Kcb K.Ctl)
      → load w.kcps p ≡ some b
      → a.user ≡ b.user
      → a.output ≡ true
      → Sound w
      → Sound (record w { kcps = write w.kcps p a })
  Sound-store_kcp w p a b e u o s = record {
    owner = λ q x r. elim (load-write_cases w.kcps p q a b x e r) [
      | inl (same, is) ↦ let (c, cb, h, l, o') = s.owner p b e in (c, cb, cc, l, cc)
      | inr old ↦ s.owner q x old
    ];
    unique = λ q q' c x x' r r' h h'. elim (load-write_cases w.kcps p q a b x e r) [
      | inl (same, is) ↦ elim (load-write_cases w.kcps p q' a b x' e r') [
        | inl (same', is') ↦ cc
        | inr old' ↦ sym same ∙ s.unique p q' c b x' e old' (cc) h'
      ]
      | inr old ↦ elim (load-write_cases w.kcps p q' a b x' e r') [
        | inl (same', is') ↦ s.unique q p c x b old e h (cc) ∙ same'
        | inr old' ↦ s.unique q q' c x x' old old' h h'
      ]
    ];
    paired = omega (arith, s.paired, live-write w.kcps p a b e);
    sized = s.sized;
  }

  pub Sound-store_callback :
      (w : World L K) (c : Ptr) (new old : Callback)
      → load w.callbacks c ≡ some old
      → Sound w
      → Sound (record w { callbacks = write w.callbacks c new })
  Sound-store_callback w c new old e s = record {
    owner = λ p b r.
        let (d, cb, u, l, o) = s.owner p b r in let (cb', l') = still d cb l in (d, cb', u, l', o);
    unique = s.unique;
    paired = omega (arith, s.paired, live-write w.callbacks c new old e);
    sized = s.sized;
  }
    where
      still :
          (d : Ptr) (cb : Callback)
          → load w.callbacks d ≡ some cb
          → (cb' : Callback) × (load (write w.callbacks c new) d ≡ some cb')
      still d cb l = elim (ℕ_discrete c d) [
        | yes same ↦ (
          new,
          ap (load (write w.callbacks c new)) (sym same) ∙ load-write w.callbacks c new old e,
        )
        | no differ ↦ (cb, load-write_ne w.callbacks c d new differ ∙ l)
      ]

  -- The same, and p is a connection with the callback block c.
  pub record Open (p c : Ptr) (w : World L K) : Type 0 where
    pub sound : Sound w
    pub b : Kcb K.Ctl
    pub held : load w.kcps p ≡ some b
    pub user : b.user ≡ some c

  pub Open-Frame : (p c : Ptr) → Frame (Open p c) p
  Open-Frame p c = record {
    on_vm = λ w m same i. record {
      sound = Sound-on_vm w m i.sound;
      b = i.b;
      held = i.held;
      user = i.user;
    };
    on_buffer = λ w new same i. record {
      sound = record {
        owner = i.sound.owner;
        unique = i.sound.unique;
        paired = i.sound.paired;
        sized = same ∙ i.sound.sized;
      };
      b = i.b;
      held = i.held;
      user = i.user;
    };
    on_block = λ w x k e i.
        let (d, cb, u, l, o) = i.sound.owner p x e in
        let same : x ≡ i.b = cc i.held in
        record {
          sound = Sound-store_kcp w p (record x { ctl = k }) x e refl o i.sound;
          b = record x { ctl = k };
          held = load-write w.kcps p (record x { ctl = k }) x e;
          user = ap (λ (z : Kcb K.Ctl). z.user) same ∙ i.user;
        };
  }

  pub Open-Connected : (p c : Ptr) → Connected (Open p c) p c
  Open-Connected p c = record {
    block = λ w i. (i.b, i.held, i.user, (i.sound.owner p i.b i.held).4);
  }
