-- ===== src/Lkcpsn/Whole.antt =====
-- The state in which the methods of lkcpsn.c are called, with any number of connections.
pub mod Methods
use native.Mathlib.Decide.{ℕ_discrete}
use lua_kcp_skynet.Prelude.{
  ℕ, List, [], ◌∷◌, Option, none, some, true, ◌≡◌, inl, inr, refl, sym, ap, ◌∙◌, length,
}
use lua_kcp_skynet.Prelude.Int.{ℤ, pos}
use lua_kcp_skynet.Heap.{Ptr, load, write, live}
use lua_kcp_skynet.Heap.Laws.{load-write, load-write_ne, load-write_cases, live-write}
use lua_kcp_skynet.Outcome.{◌>>=◌}
use lua_kcp_skynet.Outcome.Rules.{Ends, returns, Keeps, Keeps-pure}
use lua_kcp_skynet.Api.Lua.{Bytes, integer, string, function, kcp, LuaApi}
use lua_kcp_skynet.Api.Lua
use lua_kcp_skynet.Api.Kcp.{KcpApi}
use lua_kcp_skynet.Api.Kcp
use lua_kcp_skynet.Machine.{Kcb, slot, load_callback, store_callback}
use lua_kcp_skynet.Machine.Rules.{Frame}
use lua_kcp_skynet.Addresses.{Callback, Datagram, World, set_address}
use lua_kcp_skynet.Addresses.Fill.{c_string}
use lua_kcp_skynet.Addresses.Laws.{Holds, set_address-Holds}
use lua_kcp_skynet.Addresses.Print.{length-c_string}
use lua_kcp_skynet.Lkcpsn.{Method, run_on, lkcp_methods}
use lua_kcp_skynet.Lkcpsn.Sound.{Owned, Sound, Sound-alike, Open, Readdressed}
use lua_kcp_skynet.Lkcpsn.Readdress.{Sound-readdressed}
use lua_kcp_skynet.Lkcpsn.Live.{Live}
use lua_kcp_skynet.Lkcpsn.Serves.{Serves, methods-Ends}

module _ {L : LuaApi} {K : KcpApi} where
  -- `LL` is there with an empty stack and the function f as `pack_output`.
  pub record Packs (f : ℕ) (w : World L K) : Type 0 where
    pub m : L.Vm
    pub ll : w.statics.ll ≡ some m
    pub empty : L.slots m 0 ≡ []
    pub packs : L.pack_output m ≡ function f

  -- All connections are sound, p is one of them, and packets can be packed.
  pub record Whole (f : ℕ) (p c : Ptr) (w : World L K) : Type 0 where
    pub open_pc : Open p c w
    pub shared : Packs f w

  -- The same connections, with other control blocks.
  pub Whole-alike :
      (f : ℕ) (p c : Ptr) (w w' : World L K)
      → Whole f p c w
      → (b : Kcb K.Ctl) → load w'.kcps p ≡ some b
      → b.user ≡ some c
      → Sound w'
      → Packs f w'
      → Whole f p c w'
  Whole-alike f p c w w' i b held user sound shared = record {
    open_pc = record { sound = sound; b = b; held = held; user = user };
    shared = shared;
  }

  pub same_kcps :
      (w w' : World L K)
      → Sound w
      → w'.kcps ≡ w.kcps
      → w'.callbacks ≡ w.callbacks
      → w'.statics.addresses ≡ w.statics.addresses
      → w'.buffer.size ≡ w.buffer.size
      → Sound w'
  same_kcps w w' s kcps callbacks addresses size =
      Sound-alike w w' s (λ q y r. (y, ap (λ h. load h q) (sym kcps) ∙ r, refl, refl))
        (ap live kcps) callbacks addresses size

  pub Whole-view : (f : ℕ) (p c : Ptr) (w : World L K) → Whole f p c w → Live f p c w
  Whole-view f p c w i =
      let x = i.open_pc in
      let o = x.sound.owner p x.b x.held in
      let c_is : o.c ≡ c = cc (o.user, x.user) in
      record {
        a = o.a;
        cb = o.cb;
        addressed = record {
          b = x.b;
          held = x.held;
          user = x.user;
          callback = ap (load w.callbacks) (sym c_is) ∙ o.callback;
          address = o.address;
          block = o.block;
          content = o.content;
          size = o.size;
        };
        output = o.output;
        thread = o.thread;
        on_thread = o.on_thread;
        sized = x.sound.sized;
        m = i.shared.m;
        ll = i.shared.ll;
        empty = i.shared.empty;
        packs = i.shared.packs;
      }

  write_ctl :
      (w : World L K) (q : Ptr) (x : Kcb K.Ctl) (k : K.Ctl)
      → load w.kcps q ≡ some x
      → Sound w
      → Sound (record w { kcps = write w.kcps q (record x { ctl = k }) })
  write_ctl w q x k e s =
      Sound-alike w (record w { kcps = write w.kcps q (record x { ctl = k }) }) s
        (λ r y l. elim (load-write_cases w.kcps q r (record x { ctl = k }) x y e l) [
          | inl (at, is) ↦ (
            x,
            ap (load w.kcps) (sym at) ∙ e,
            ap (λ (z : Kcb K.Ctl). z.user) (sym is),
            ap (λ (z : Kcb K.Ctl). z.output) (sym is),
          )
          | inr old ↦ (y, old, refl, refl)
        ])
        (live-write w.kcps q (record x { ctl = k }) x e) refl refl refl

  pub Whole-Frame : (f : ℕ) (p c : Ptr) → Frame (Whole f p c) p
  Whole-Frame f p c = record {
    on_vm = λ w m same i.
        Whole-alike f p c w (record w { vm = m }) i i.open_pc.b i.open_pc.held i.open_pc.user
          (same_kcps w (record w { vm = m }) i.open_pc.sound refl refl refl refl)
          (record {
            m = i.shared.m;
            ll = i.shared.ll;
            empty = i.shared.empty;
            packs = i.shared.packs;
          });
    on_buffer = λ w new same i.
        Whole-alike f p c w (record w { buffer = new }) i i.open_pc.b i.open_pc.held i.open_pc.user
          (same_kcps w (record w { buffer = new }) i.open_pc.sound refl refl refl same)
          (record {
            m = i.shared.m;
            ll = i.shared.ll;
            empty = i.shared.empty;
            packs = i.shared.packs;
          });
    on_block = λ w x k e i.
        let w' : World L K = record w { kcps = write w.kcps p (record x { ctl = k }) } in
        let same : x ≡ i.open_pc.b = cc (i.open_pc.held) in
        Whole-alike f p c w w' i (record x { ctl = k })
          (load-write w.kcps p (record x { ctl = k }) x e)
          (ap (λ (z : Kcb K.Ctl). z.user) same ∙ i.open_pc.user)
          (write_ctl w p x k e i.open_pc.sound)
          (record {
            m = i.shared.m;
            ll = i.shared.ll;
            empty = i.shared.empty;
            packs = i.shared.packs;
          });
  }
