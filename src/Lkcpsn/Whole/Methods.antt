-- ===== src/Lkcpsn/Whole/Methods.antt =====
-- A method called on one of the connections of lkcpsn.c keeps all of them.
use lua_kcp_skynet.Sender.{Packing}
use lua_kcp_skynet.Prelude.{ℕ, List, [], ◌∷◌, some, ◌≡◌, inl, refl, ◌∙◌, length}
use lua_kcp_skynet.Prelude.Int.{ℤ}
use lua_kcp_skynet.Heap.{Ptr, write}
use lua_kcp_skynet.Heap.Laws.{load-write, load-write_ne, live-write}
use lua_kcp_skynet.Outcome.{◌>>=◌}
use lua_kcp_skynet.Outcome.Rules.{Ends, returns, Keeps, Keeps-pure}
use lua_kcp_skynet.Api.Lua.{Bytes, integer, string, function, kcp, LuaApi}
use lua_kcp_skynet.Api.Lua
use lua_kcp_skynet.Api.Kcp.{KcpApi}
use lua_kcp_skynet.Api.Kcp
use lua_kcp_skynet.Machine.{slot, load_callback, store_callback}
use lua_kcp_skynet.Addresses.{Callback, Datagram, World, set_address}
use lua_kcp_skynet.Addresses.Fill.{c_string}
use lua_kcp_skynet.Addresses.Laws.{Holds, set_address-Holds}
use lua_kcp_skynet.Addresses.Print.{length-c_string}
use lua_kcp_skynet.Lkcpsn.{Method, run_on, lkcp_methods}
use lua_kcp_skynet.Lkcpsn.Readdress.{Sound-readdressed}
use lua_kcp_skynet.Lkcpsn.Serves.{Serves, methods-Ends}
use lua_kcp_skynet.Lkcpsn.Whole.{Whole, Whole-alike, same_kcps, Whole-view, Whole-Frame}

module _ {L : LuaApi} {K : KcpApi} where
  pub address-Whole :
      (f : ℕ) (p c : Ptr) (x : ℕ) (xs : Bytes) (w w' : World L K) (i : Whole f p c w)
      → Holds c (Whole-view f p c w i).a (Whole-view f p c w i).cb (x ∷ xs) w w'
      → Whole f p c w'
  unfolding Whole-view
  address-Whole f p c x xs w w' i h =
      let v = Whole-view f p c w i in
      let new : Callback = record (v.cb) {
        address = some h.at_block;
        addresssz = length (x ∷ xs);
      } in
      Whole-alike f p c w w' i i.open_pc.b (rw h.kcps i.open_pc.held) i.open_pc.user
        (Sound-readdressed p c w w' i.open_pc new (record {
          kcps = h.kcps;
          callback = h.callback;
          callbacks = h.callbacks;
          count = h.callbacks_kept;
          at_block = h.at_block;
          block = c_string (x ∷ xs);
          thread = v.thread;
          address = refl;
          on_thread = v.on_thread;
          content = h.content;
          size = length-c_string (x ∷ xs);
          fresh = h.fresh;
          blocks = h.blocks;
          buffer = h.buffer;
        }))
        (record {
          m = i.shared.m;
          ll = h.ll ∙ i.shared.ll;
          empty = i.shared.empty;
          packs = i.shared.packs;
        })

  keep_address :
      (f : ℕ) (p c : Ptr) (bytes : Bytes)
      → Keeps (Whole {L = L} {K = K} f p c) (set_address p bytes)
  unfolding set_address
  keep_address f p c [] = Keeps-pure tt
  keep_address f p c (x ∷ xs) = record {
    keep = λ w i.
        let v = Whole-view f p c w i in
        let (w', e, h) = set_address-Holds p c v.a v.cb x xs w v.addressed in
        rw e (returns (address-Whole f p c x xs w w' i h));
  }

  pub thread-Whole :
      (f : ℕ) (p c t : Ptr) (w : World L K) (i : Whole f p c w)
      → Whole f p c (record w {
        callbacks = write w.callbacks c (record (Whole-view f p c w i).cb { el = some t });
      })
  unfolding Whole-view
  thread-Whole f p c t w i =
      let v = Whole-view f p c w i in
      let new : Callback = record (v.cb) { el = some t } in
      let w' : World L K = record w { callbacks = write w.callbacks c new } in
      Whole-alike f p c w w' i i.open_pc.b i.open_pc.held i.open_pc.user
        (Sound-readdressed p c w w' i.open_pc new (record {
          kcps = refl;
          callback = load-write w.callbacks c new v.cb v.addressed.callback;
          callbacks = λ d differ. load-write_ne w.callbacks c d new differ;
          count = live-write w.callbacks c new v.cb v.addressed.callback;
          at_block = v.a;
          block = v.addressed.block;
          thread = t;
          address = v.addressed.address;
          on_thread = refl;
          content = v.addressed.content;
          size = v.addressed.size;
          fresh = inl refl;
          blocks = λ q x differ e. e;
          buffer = refl;
        }))
        (record {
          m = i.shared.m;
          ll = i.shared.ll;
          empty = i.shared.empty;
          packs = i.shared.packs;
        })

  keep_thread : (f : ℕ) (p c : Ptr) (t : ℕ) → Keeps (Whole {L = L} {K = K} f p c) (run_on t c)
  unfolding run_on load_callback store_callback
  keep_thread f p c t = record {
    keep = λ w i.
        let v = Whole-view f p c w i in
        rw (v.addressed.callback, ◌>>=◌) (returns (thread-Whole f p c t w i));
  }

  pub Whole-Serves : (f : ℕ) (p c : Ptr) → Serves {L = L} {K = K} f p c (Whole f p c)
  Whole-Serves f p c = record {
    view = Whole-view f p c;
    frame = Whole-Frame f p c;
    keep_address = keep_address f p c;
    keep_thread = keep_thread f p c;
    after_packet = λ w v m' ds same empty packs i.
        let w' : World L K = record w {
          vm = v;
          statics = record (w.statics) { ll = some m'; sent = ds };
        } in
        Whole-alike f p c w w' i i.open_pc.b i.open_pc.held i.open_pc.user
          (same_kcps w w' i.open_pc.sound refl refl refl refl)
          (record { m = m'; ll = refl; empty = empty; packs = packs });
  }

module _ {L : LuaApi} {K : KcpApi} (lua : Lua.IsLawful L) (lawful : Kcp.IsLawful K)
    (udp_sendbuffer : List Datagram → ℤ) (pk : Packing L) (p c : Ptr) where
  -- In a process with any number of connections, none of which shares a callback block or an
  -- address block with another, a method called on one of them returns or raises a Lua error,
  -- whatever its other arguments and the socket's answers are, provided that every call of
  -- `pack_output` leaves a string. It meets no undefined behaviour, and all of this holds afterwards.
  pub lkcp_methods-Whole :
      (m : Method) (t : ℕ) (w : World L K)
      → slot t 1 w ≡ some (kcp (some p))
      → Whole pk.f p c w
      → Ends (λ _. Whole pk.f p c) (Whole pk.f p c) (lkcp_methods udp_sendbuffer m t w)
  lkcp_methods-Whole =
      methods-Ends lua lawful udp_sendbuffer pk p c (Whole pk.f p c) (Whole-Serves pk.f p c)
