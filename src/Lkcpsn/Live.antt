-- ===== src/Lkcpsn/Live.antt =====
-- The invariant of an open connection of lkcpsn.c, and the steps that keep it.
use lua_kcp_skynet.Prelude.{ℕ, [], ◌∷◌, some, true, ◌≡◌, refl, ap, ◌∙◌, length}
use lua_kcp_skynet.Heap.{Ptr, load, write}
use lua_kcp_skynet.Heap.Laws.{load-write}
use lua_kcp_skynet.Outcome.Rules.{returns, Keeps, Keeps-pure}
use lua_kcp_skynet.Api.Lua.{Bytes, function, LuaApi}
use lua_kcp_skynet.Api.Kcp.{KcpApi}
use lua_kcp_skynet.Machine.{Kcb}
use lua_kcp_skynet.Machine.Rules.{Frame, Connected}
use lua_kcp_skynet.Addresses.{Callback, World, set_address}
use lua_kcp_skynet.Addresses.Fill.{c_string}
use lua_kcp_skynet.Addresses.Laws.{Addressed, set_address-Holds}
use lua_kcp_skynet.Addresses.Print.{length-c_string}
use lua_kcp_skynet.Lkcpsn.{recv_buffer_len}

module _ {L : LuaApi} {K : KcpApi} where
  -- The connection p has its callback block and an address block of the right size; the receive
  -- buffer has its size; `LL` is there with an empty stack and the function f as `pack_output`.
  pub record Live (f : ℕ) (p c : Ptr) (w : World L K) : Type 0 where
    pub a : Ptr
    pub cb : Callback
    pub addressed : Addressed p c a cb w
    pub output : addressed.b.output ≡ true
    pub thread : ℕ
    pub on_thread : cb.el ≡ some thread
    pub sized : w.buffer.size ≡ recv_buffer_len
    pub m : L.Vm
    pub ll : w.statics.ll ≡ some m
    pub empty : L.slots m 0 ≡ []
    pub packs : L.pack_output m ≡ function f

  -- The same, where only the connection's control block changed.
  with_block :
      (f : ℕ) (p c : Ptr) (w w' : World L K)
      → (i : Live f p c w) → (b : Kcb K.Ctl) → load w'.kcps p ≡ some b
      → b.user ≡ some c
      → b.output ≡ true
      → w'.callbacks ≡ w.callbacks
      → w'.statics ≡ w.statics
      → w'.buffer.size ≡ w.buffer.size
      → Live f p c w'
  with_block f p c w w' i b held user out callbacks statics size = record {
    a = i.a;
    cb = i.cb;
    addressed = record {
      b = b;
      held = held;
      user = user;
      callback = rw callbacks i.addressed.callback;
      address = i.addressed.address;
      block = i.addressed.block;
      content = rw statics i.addressed.content;
      size = i.addressed.size;
    };
    output = out;
    thread = i.thread;
    on_thread = i.on_thread;
    sized = size ∙ i.sized;
    m = i.m;
    ll = rw statics i.ll;
    empty = i.empty;
    packs = i.packs;
  }

  pub Live-Frame : (f : ℕ) (p c : Ptr) → Frame (Live f p c) p
  Live-Frame f p c = record {
    on_vm = λ w m same i.
        with_block f p c w (record w { vm = m }) i i.addressed.b i.addressed.held i.addressed.user
          i.output refl refl refl;
    on_buffer = λ w new same i.
        with_block f p c w (record w { buffer = new }) i i.addressed.b i.addressed.held
          i.addressed.user i.output refl refl same;
    on_block = λ w x k e i.
        let is : x ≡ i.addressed.b = cc (i.addressed.held) in
        with_block f p c w (record w { kcps = write w.kcps p (record x { ctl = k }) }) i
          (record x { ctl = k }) (load-write w.kcps p (record x { ctl = k }) x e)
          (ap (λ (z : Kcb K.Ctl). z.user) is ∙ i.addressed.user)
          (ap (λ (z : Kcb K.Ctl). z.output) is ∙ i.output) refl refl refl;
  }

  pub Live-Connected : (f : ℕ) (p c : Ptr) → Connected (Live f p c) p c
  Live-Connected f p c = record {
    block = λ w i. (i.addressed.b, i.addressed.held, i.addressed.user, i.output);
  }

  pub set_address-Keeps :
      (f : ℕ) (p c : Ptr) (bytes : Bytes) → Keeps (Live f p c) (set_address p bytes)
  unfolding set_address
  set_address-Keeps f p c [] = Keeps-pure tt
  set_address-Keeps f p c (x ∷ xs) = record {
    keep = λ w i.
        let (w', e, h) = set_address-Holds p c i.a i.cb x xs w i.addressed in
        rw e (
          returns (record {
            a = h.at_block;
            cb = record (i.cb) { address = some h.at_block; addresssz = length (x ∷ xs) };
            addressed = record {
              b = i.addressed.b;
              held = rw h.kcps i.addressed.held;
              user = i.addressed.user;
              callback = h.callback;
              address = refl;
              block = c_string (x ∷ xs);
              content = h.content;
              size = length-c_string (x ∷ xs);
            };
            output = i.output;
            thread = i.thread;
            on_thread = i.on_thread;
            sized = rw h.buffer i.sized;
            m = i.m;
            ll = h.ll ∙ i.ll;
            empty = i.empty;
            packs = i.packs;
          }));
  }
