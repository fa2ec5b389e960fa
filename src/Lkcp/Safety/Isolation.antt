-- ===== src/Lkcp/Safety/Isolation.antt =====
-- What a method of lkcp.c leaves alone: every other connection.
use lua_kcp_skynet.Prelude.{ℕ, some, ◌≡◌, ◌≢◌, refl, ◌∙◌}
use lua_kcp_skynet.Heap.{Ptr, load}
use lua_kcp_skynet.Heap.Laws.{load-write, load-write_ne}
use lua_kcp_skynet.Outcome.{◌>>=◌}
use lua_kcp_skynet.Outcome.Rules.{Ends, returns, Keeps, mono, both}
use lua_kcp_skynet.Api.Lua.{kcp, LuaApi}
use lua_kcp_skynet.Api.Lua
use lua_kcp_skynet.Api.Kcp.{KcpApi}
use lua_kcp_skynet.Api.Kcp
use lua_kcp_skynet.Machine.{slot, load_callback, store_callback}
use lua_kcp_skynet.Machine.Rules.{Frame}
use lua_kcp_skynet.Lkcp.{Callback, World, run_on, lkcp_methods, Method}
use lua_kcp_skynet.Lkcp.Output.Stack.{Needs, Leaves, Needs-Leaves}
use lua_kcp_skynet.Lkcp.Safety.Sound.{Sound-store_callback, Open, Open-Frame, Open-Connected}
use lua_kcp_skynet.Lkcp.Safety.Serves.{Serves, methods-Ends}

module _ {L : LuaApi} {K : KcpApi} (p c : Ptr) (cb : Callback) (w : World L K) where
  -- Since w, only the control block of p and the running thread of its callback block cb, at c, may
  -- have changed.
  pub record Isolated (w' : World L K) : Type 0 where
    pub open_pc : Open p c w'
    pub own : Callback
    pub holds : load w'.callbacks c ≡ some own
    pub handle : own.handle ≡ cb.handle
    pub creator : own.l ≡ cb.l
    pub kcps : (q : Ptr) → p ≢ q → load w'.kcps q ≡ load w.kcps q
    pub callbacks : (d : Ptr) → c ≢ d → load w'.callbacks d ≡ load w.callbacks d

  Isolated-Frame : Frame Isolated p
  Isolated-Frame = record {
    on_vm = λ v m same i. record {
      open_pc = (Open-Frame p c).on_vm v m same i.open_pc;
      own = i.own;
      holds = i.holds;
      handle = i.handle;
      creator = i.creator;
      kcps = i.kcps;
      callbacks = i.callbacks;
    };
    on_buffer = λ v b same i. record {
      open_pc = (Open-Frame p c).on_buffer v b same i.open_pc;
      own = i.own;
      holds = i.holds;
      handle = i.handle;
      creator = i.creator;
      kcps = i.kcps;
      callbacks = i.callbacks;
    };
    on_block = λ v b k e i. record {
      open_pc = (Open-Frame p c).on_block v b k e i.open_pc;
      own = i.own;
      holds = i.holds;
      handle = i.handle;
      creator = i.creator;
      kcps = λ q differ. load-write_ne v.kcps p q (record b { ctl = k }) differ ∙ i.kcps q differ;
      callbacks = i.callbacks;
    };
  }

  run_on-Isolated : (t : ℕ) → Keeps Isolated (run_on t c)
  unfolding run_on load_callback store_callback
  run_on-Isolated t = record {
    keep = λ v i.
        let new : Callback = record (i.own) { el = some t } in
        rw (i.holds, ◌>>=◌)
          (returns (record {
            open_pc = record {
              sound = Sound-store_callback v c new i.own i.holds i.open_pc.sound;
              b = i.open_pc.b;
              held = i.open_pc.held;
              user = i.open_pc.user;
            };
            own = new;
            holds = load-write v.callbacks c new i.own i.holds;
            handle = i.handle;
            creator = i.creator;
            kcps = i.kcps;
            callbacks = λ d differ. load-write_ne v.callbacks c d new differ ∙ i.callbacks d differ;
          }));
  }

  Isolated-Serves : Serves p c Isolated
  Isolated-Serves = record {
    frame = Isolated-Frame;
    connected = record { block = λ v i. (Open-Connected p c).block v i.open_pc };
    sized = λ v i. i.open_pc.sound.sized;
    callback = λ v i. (i.own, i.holds);
    keep_thread = run_on-Isolated;
  }

module _ {L : LuaApi} {K : KcpApi} (lua : Lua.IsLawful L) (lawful : Kcp.IsLawful K)
    (p c : Ptr) where
  isolated :
      (m : Method) (t : ℕ) (cb : Callback) (w : World L K)
      → slot t 1 w ≡ some (kcp (some p))
      → Open p c w
      → load w.callbacks c ≡ some cb
      → Ends (λ _. Isolated p c cb w) (Isolated p c cb w) (lkcp_methods m t w)
  isolated m t cb w self i holds =
      methods-Ends lua lawful p c (Isolated p c cb w) (Isolated-Serves p c cb w) m t w self
        (record {
          open_pc = i;
          own = cb;
          holds = holds;
          handle = refl;
          creator = refl;
          kcps = λ q differ. refl;
          callbacks = λ d differ. refl;
        })

  -- A method called on an open connection, whatever its other arguments are, returns or raises a Lua
  -- error and meets no undefined behaviour, provided that for an update or a flush the connection's
  -- reference stands for a Lua function. Either way every other connection and every other callback
  -- block are exactly as they were, the connection keeps its reference and its creating thread, and
  -- the invariant holds. An update or a flush that returns leaves the Lua stack as it was, however
  -- many packets went out.
  pub lkcp_methods-Isolated :
      (m : Method) (t : ℕ) (cb : Callback) (w : World L K)
      → slot t 1 w ≡ some (kcp (some p))
      → Open p c w
      → load w.callbacks c ≡ some cb
      → Needs m cb w
      → Ends
          (λ _ w'. Isolated p c cb w w' × Leaves m t w w')
          (Isolated p c cb w)
          (lkcp_methods m t w)
  lkcp_methods-Isolated m t cb w self i holds needs =
      let ends = isolated m t cb w self i holds in
      mono
        (both ends
          (Needs-Leaves lua t p c cb w i self holds m (mono ends (λ _ _ _. tt) (λ _ _. tt)) needs))
        (λ _ w' x. x) (λ w' x. x.0)
