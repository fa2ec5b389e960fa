-- ===== src/Lkcpsn/Safety.antt =====
-- Memory safety of the methods of lkcpsn.c.
use lua_kcp_skynet.Sender.{Packing}
use lua_kcp_skynet.Prelude.{ℕ, List, some, ◌≡◌, refl}
use lua_kcp_skynet.Prelude.Int.{ℤ}
use lua_kcp_skynet.Heap.{Ptr}
use lua_kcp_skynet.Heap.Laws.{load-write}
use lua_kcp_skynet.Outcome.{◌>>=◌}
use lua_kcp_skynet.Outcome.Rules.{Ends, returns, Keeps}
use lua_kcp_skynet.Api.Lua.{Bytes, Value, integer, string, function, kcp, skynet_context, LuaApi}
use lua_kcp_skynet.Api.Lua
use lua_kcp_skynet.Api.Kcp.{KcpApi}
use lua_kcp_skynet.Api.Kcp
use lua_kcp_skynet.Machine.{slot, load_callback, store_callback}
use lua_kcp_skynet.Addresses.{Callback, Datagram, World}
use lua_kcp_skynet.Lkcpsn.{Method, run_on, lkcp_methods}
use lua_kcp_skynet.Lkcpsn.Serves.{Serves, methods-Ends}
use lua_kcp_skynet.Lkcpsn.Live.{Live, Live-Frame, set_address-Keeps}

module _ {L : LuaApi} {K : KcpApi} where
  run_on-Keeps : (f : ℕ) (p c : Ptr) (t : ℕ) → Keeps (Live {L = L} {K = K} f p c) (run_on t c)
  unfolding run_on load_callback store_callback
  run_on-Keeps f p c t = record {
    keep = λ w i.
        let new : Callback = record (i.cb) { el = some t } in
        rw (i.addressed.callback, ◌>>=◌)
          (returns (record {
            a = i.a;
            cb = new;
            addressed = record {
              b = i.addressed.b;
              held = i.addressed.held;
              user = i.addressed.user;
              callback = load-write w.callbacks c new i.cb i.addressed.callback;
              address = i.addressed.address;
              block = i.addressed.block;
              content = i.addressed.content;
              size = i.addressed.size;
            };
            output = i.output;
            thread = t;
            on_thread = refl;
            sized = i.sized;
            m = i.m;
            ll = i.ll;
            empty = i.empty;
            packs = i.packs;
          }));
  }

  Live-Serves : (f : ℕ) (p c : Ptr) → Serves {L = L} {K = K} f p c (Live f p c)
  Live-Serves f p c = record {
    view = λ w i. i;
    frame = Live-Frame f p c;
    keep_address = λ bytes. set_address-Keeps f p c bytes;
    keep_thread = λ t. run_on-Keeps f p c t;
    after_packet = λ w v m' ds same empty packs i. record {
      a = i.a;
      cb = i.cb;
      addressed = record {
        b = i.addressed.b;
        held = i.addressed.held;
        user = i.addressed.user;
        callback = i.addressed.callback;
        address = i.addressed.address;
        block = i.addressed.block;
        content = i.addressed.content;
        size = i.addressed.size;
      };
      output = i.output;
      thread = i.thread;
      on_thread = i.on_thread;
      sized = i.sized;
      m = m';
      ll = refl;
      empty = empty;
      packs = packs;
    };
  }

module _ {L : LuaApi} {K : KcpApi} (lua : Lua.IsLawful L) (lawful : Kcp.IsLawful K)
    (udp_sendbuffer : List Datagram → ℤ) (pk : Packing L) (p c : Ptr) where
  -- A method called on an open connection, whatever its other arguments and the socket's answers
  -- are, returns or raises a Lua error, provided that every call of `pack_output` leaves a string;
  -- it meets no undefined behaviour, and the invariant holds afterwards.
  pub lkcp_methods-Live :
      (m : Method) (t : ℕ) (w : World L K)
      → slot t 1 w ≡ some (kcp (some p))
      → Live pk.f p c w
      → Ends (λ _. Live pk.f p c) (Live pk.f p c) (lkcp_methods udp_sendbuffer m t w)
  lkcp_methods-Live =
      methods-Ends lua lawful udp_sendbuffer pk p c (Live pk.f p c) (Live-Serves pk.f p c)
