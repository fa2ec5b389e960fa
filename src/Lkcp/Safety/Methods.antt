-- ===== src/Lkcp/Safety/Methods.antt =====
-- No method of lkcp.c breaks the invariant or meets undefined behaviour.
use lua_kcp_skynet.Prelude.{ℕ, some, ◌≡◌, sym, ap, ◌∙◌}
use lua_kcp_skynet.Heap.{Ptr, load}
use lua_kcp_skynet.Outcome.{◌>>=◌}
use lua_kcp_skynet.Outcome.Rules.{Ends, returns, Keeps}
use lua_kcp_skynet.Api.Lua.{Bytes, kcp, LuaApi}
use lua_kcp_skynet.Api.Lua
use lua_kcp_skynet.Api.Kcp.{KcpApi}
use lua_kcp_skynet.Api.Kcp
use lua_kcp_skynet.Machine.{slot, load_callback, store_callback}
use lua_kcp_skynet.Lkcp.{Callback, World, run_on, lkcp_methods, Method}
use lua_kcp_skynet.Lkcp.Safety.Serves.{Serves, methods-Ends}
use lua_kcp_skynet.Lkcp.Safety.Sound.{Sound-store_callback, Open, Open-Frame, Open-Connected}

module _ {L : LuaApi} {K : KcpApi} where
  pub callback_of :
      (p c : Ptr) (w : World L K) → Open p c w → (cb : Callback) × (load w.callbacks c ≡ some cb)
  callback_of p c w i =
      let (d, cb, u, l, o) = i.sound.owner p i.b i.held in
      let same : d ≡ c = cc i.user in (cb, ap (load w.callbacks) (sym same) ∙ l)

  run_on-Keeps : (p c : Ptr) (t : ℕ) → Keeps (Open {L = L} {K = K} p c) (run_on t c)
  unfolding run_on load_callback store_callback
  run_on-Keeps p c t = record {
    keep = λ w i.
        let (cb, e) = callback_of p c w i in
        rw (e, ◌>>=◌)
          (returns (record {
            sound = Sound-store_callback w c (record cb { el = some t }) cb e i.sound;
            b = i.b;
            held = i.held;
            user = i.user;
          }));
  }

  pub Open-Serves : (p c : Ptr) → Serves {L = L} {K = K} p c (Open p c)
  Open-Serves p c = record {
    frame = Open-Frame p c;
    connected = Open-Connected p c;
    sized = λ w i. i.sound.sized;
    callback = callback_of p c;
    keep_thread = run_on-Keeps p c;
  }

module _ {L : LuaApi} {K : KcpApi} (lua : Lua.IsLawful L) (lawful : Kcp.IsLawful K)
    (p c : Ptr) where
  -- A method called on an open connection, whatever its other arguments are, returns or raises a
  -- Lua error; it meets no undefined behaviour, and the invariant holds afterwards.
  pub lkcp_methods-Ends :
      (m : Method) (t : ℕ) (w : World L K)
      → slot t 1 w ≡ some (kcp (some p))
      → Open p c w
      → Ends (λ _. Open p c) (Open p c) (lkcp_methods m t w)
  lkcp_methods-Ends = methods-Ends lua lawful p c (Open p c) (Open-Serves p c)
