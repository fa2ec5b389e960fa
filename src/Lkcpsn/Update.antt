-- ===== src/Lkcpsn/Update.antt =====
-- An update or a flush of lkcpsn.c as the sequence of datagrams that it sends.
use lua_kcp_skynet.Sender.{Packing, kcp_output_callback}
use lua_kcp_skynet.Prelude.{ℕ, true, false, List, some, ◌≡◌, refl}
use lua_kcp_skynet.Prelude.Int.{ℤ}
use lua_kcp_skynet.Prelude.Word.{u32, u32-int32}
use lua_kcp_skynet.Heap.{load, write}
use lua_kcp_skynet.Heap.Laws.{load-write}
use lua_kcp_skynet.Outcome.{ok, pure, ◌>>=◌, and_then}
use lua_kcp_skynet.Outcome.Rules.{Ends, returns, bind, mono}
use lua_kcp_skynet.Api.Lua.{
  Bytes, Value, integer, string, function, light, kcp, skynet_context, LuaApi,
}
use lua_kcp_skynet.Api.Lua
use lua_kcp_skynet.Api.Kcp.{KcpApi, Run}
use lua_kcp_skynet.Machine.{slot, start, load_kcp, load_callback, store_callback}
use lua_kcp_skynet.Machine.Steps.{guarded-ok, user_of-ok, check_integer-ok}
use lua_kcp_skynet.Addresses.{Callback, Datagram, World}
use lua_kcp_skynet.Lkcpsn.{run_on, lkcp_update, lkcp_flush}
use lua_kcp_skynet.Lkcpsn.Live.{Live}
use lua_kcp_skynet.Lkcpsn.Transmit.{Sent, transmit, datagram_of, Ready, drive-transmit}

module _ {L : LuaApi} {K : KcpApi} (lua : Lua.IsLawful L) (udp_sendbuffer : List Datagram → ℤ)
    (pk : Packing L) (t p c ctx : ℕ) (w : World L K) (i : Live pk.f p c w)
    (self : slot t 1 w ≡ some (kcp (some p)))
    (context : L.field w.vm skynet_context ≡ light (some ctx)) where
  -- What a run from the connection's state sends, after what was sent before.
  abbrev pub transmitted : Run K.Ctl → Sent K.Ctl
  transmitted =
      transmit udp_sendbuffer (datagram_of K pk.result ctx w.statics.svrsock i.addressed.block)
        w.statics.sent

  -- Afterwards exactly these datagrams were sent, and the connection is as the library left it.
  pub record IsSent (r : Sent K.Ctl) (w' : World L K) : Type 0 where
    pub datagrams : w'.statics.sent ≡ r.datagrams
    pub kcb : load w'.kcps p ≡ some (record i.addressed.b { ctl = r.ctl })
    pub thread : load w'.callbacks c ≡ some (record i.cb { el = some t })

  abbrev cb' : Callback
  cb' = record i.cb { el = some t }

  abbrev running : World L K
  running = record w { callbacks = write w.callbacks c cb' }

  run_on-ok : run_on t c w ≡ ok tt running
  unfolding run_on load_callback store_callback
  run_on-ok = rw (i.addressed.callback, ◌>>=◌)

  abbrev IsReady : K.Ctl → List Datagram → World L K → Type 0
  IsReady =
      Ready lua udp_sendbuffer pk p c t i.a ctx w.statics.svrsock i.addressed.b cb'
        i.addressed.block i.addressed.user i.output refl i.addressed.address

  running-IsReady : IsReady i.addressed.b.ctl w.statics.sent running
  running-IsReady = record {
    held = i.addressed.held;
    callback = load-write w.callbacks c cb' i.cb i.addressed.callback;
    content = i.addressed.content;
    context = context;
    socket = refl;
    out = refl;
    m = i.m;
    ll = i.ll;
    empty = i.empty;
    packs = i.packs;
  }

  IsReady-IsSent : (r : Sent K.Ctl) (w' : World L K) → IsReady r.ctl r.datagrams w' → IsSent r w'
  IsReady-IsSent r w' x = record { datagrams = x.out; kcb = x.held; thread = x.callback }

  -- The run returns no value, or a Lua error ends it.
  abbrev pub Done : Sent K.Ctl → ℕ → World L K → Type 0
  Done r n w' = (n ≡ 0) × (r.all_accepted ≡ true) × IsSent r w'

  abbrev pub Stopped : Sent K.Ctl → World L K → Type 0
  Stopped r w' = (r.all_accepted ≡ false) × IsSent r w'

  start-transmit :
      (g : K.Ctl → Run K.Ctl)
      → Ends
          (Done (transmitted (g i.addressed.b.ctl)))
          (Stopped (transmitted (g i.addressed.b.ctl)))
          (and_then (start (kcp_output_callback udp_sendbuffer) p g running) (λ _. pure 0))
  unfolding start load_kcp
  start-transmit g =
      let r = transmitted (g i.addressed.b.ctl) in
      rw (i.addressed.held, ◌>>=◌)
        (bind
          (mono
            (drive-transmit lua udp_sendbuffer pk p c t i.a ctx w.statics.svrsock i.addressed.b cb'
              i.addressed.block i.addressed.user i.output refl i.addressed.address
              (g i.addressed.b.ctl) i.addressed.b.ctl w.statics.sent running running-IsReady)
            (λ _ w' q. q) (λ w' q. (q.0, IsReady-IsSent r w' q.1)))
          (λ _ w' q. returns (refl, q.0, IsReady-IsSent r w' q.1)))

  -- A flush of an open connection sends exactly the datagrams of the library's flush, in order, each
  -- with the connection's address, the socket of the process and the packet packed with the
  -- connection's number, provided that every call of `pack_output` leaves a string. If the socket
  -- accepts all of them, the flush returns no value and the connection is as the library left it;
  -- otherwise a Lua error ends it at the first that is refused, and the rest is never sent.
  pub lkcp_flush-transmit :
      Ends
        (Done (transmitted (K.flush i.addressed.b.ctl)))
        (Stopped (transmitted (K.flush i.addressed.b.ctl)))
        (lkcp_flush udp_sendbuffer t w)
  unfolding lkcp_flush
  lkcp_flush-transmit =
      rw
        (
          guarded-ok t p c i.addressed.b _ w self i.addressed.held i.addressed.user,
          user_of-ok p c i.addressed.b w i.addressed.held i.addressed.user,
          ◌>>=◌,
          run_on-ok,
        )
        (start-transmit K.flush)

  -- An update of an open connection, at a time that is the second argument modulo 2 ^ 32, sends
  -- exactly the datagrams of the library's update, in order, each with the connection's address, the
  -- socket of the process and the packet packed with the connection's number, provided that every
  -- call of `pack_output` leaves a string. If the socket accepts all of them, the update returns no
  -- value and the connection is as the library left it; otherwise a Lua error ends it at the first
  -- that is refused, and the rest is never sent.
  pub lkcp_update-transmit :
      (now : ℤ)
      → slot t 2 w ≡ some (integer now)
      → Ends
          (Done (transmitted (K.update i.addressed.b.ctl (u32 now))))
          (Stopped (transmitted (K.update i.addressed.b.ctl (u32 now))))
          (lkcp_update udp_sendbuffer t w)
  unfolding lkcp_update
  lkcp_update-transmit now arg =
      rw
        (
          guarded-ok t p c i.addressed.b _ w self i.addressed.held i.addressed.user,
          check_integer-ok lua t 2 now w arg,
          ◌>>=◌,
          u32-int32 now,
          user_of-ok p c i.addressed.b w i.addressed.held i.addressed.user,
          run_on-ok,
        )
        (start-transmit (λ k. K.update k (u32 now)))
