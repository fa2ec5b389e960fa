-- ===== src/Lkcpsn/Isolation.antt =====
-- What a method of lkcpsn.c leaves alone: every other connection, with its callback block and its
-- address block.
use native.Mathlib.Decide.{ℕ_discrete}
use lua_kcp_skynet.Prelude.{
  same, ℕ, List, [], ◌∷◌, none, some, ◌≡◌, ◌≢◌, ◌⊎◌, inl, inr, refl, sym, ap, ◌∙◌, Option-cases,
}
use lua_kcp_skynet.Prelude.Int.{ℤ}
use lua_kcp_skynet.Heap.{Ptr, load, write, live}
use lua_kcp_skynet.Heap.Laws.{load-write, load-write_ne}
use lua_kcp_skynet.Outcome.{◌>>=◌}
use lua_kcp_skynet.Outcome.Rules.{Ends, returns, Keeps, Keeps-pure}
use lua_kcp_skynet.Api.Lua.{Bytes, kcp, LuaApi}
use lua_kcp_skynet.Api.Lua
use lua_kcp_skynet.Api.Kcp.{KcpApi}
use lua_kcp_skynet.Api.Kcp
use lua_kcp_skynet.Machine.{slot, load_callback, store_callback}
use lua_kcp_skynet.Machine.Rules.{Frame}
use lua_kcp_skynet.Addresses.{Callback, Block, Datagram, World, set_address}
use lua_kcp_skynet.Addresses.Fill.{c_string}
use lua_kcp_skynet.Addresses.Laws.{Holds, set_address-Holds}
use lua_kcp_skynet.Sender.{Packing}
use lua_kcp_skynet.Lkcpsn.{Method, run_on, lkcp_methods}
use lua_kcp_skynet.Lkcpsn.Serves.{Serves, methods-Ends}
use lua_kcp_skynet.Lkcpsn.Whole.{Whole, Whole-view, Whole-Frame}
use lua_kcp_skynet.Lkcpsn.Whole.Methods.{address-Whole, thread-Whole, Whole-Serves}

module _ {L : LuaApi} {K : KcpApi} (f : ℕ) (p c a : Ptr) (block : Block) (w : World L K) where
  -- Since w, in which the connection p had the callback block c and the address block a with the
  -- given bytes, only these may have changed, and a may have given way to a block that was not there.
  -- The address is as it was, or a string that is not empty.
  pub record Confined (w' : World L K) : Type 0 where
    pub whole : Whole f p c w'
    pub kcps : (q : Ptr) → p ≢ q → load w'.kcps q ≡ load w.kcps q
    pub callbacks : (d : Ptr) → c ≢ d → load w'.callbacks d ≡ load w.callbacks d
    pub blocks :
        (q : Ptr) (x : Block)
        → a ≢ q
        → load w.statics.addresses q ≡ some x
        → load w'.statics.addresses q ≡ some x
    pub own_block :
        (cb : Callback) (b : Ptr)
        → load w'.callbacks c ≡ some cb
        → cb.address ≡ some b
        → (b ≡ a) ⊎ (load w.statics.addresses b ≡ none)
    pub own_address :
        (cb : Callback) (b : Ptr) (x : Block)
        → load w'.callbacks c ≡ some cb
        → cb.address ≡ some b
        → load w'.statics.addresses b ≡ some x
        → (x ≡ block) ⊎ ((n : ℕ) × (ns : Bytes) × (x ≡ c_string (n ∷ ns)))
    pub count : live w'.statics.addresses ≡ live w.statics.addresses

  -- A state with the same callback blocks and address blocks.
  Confined-alike :
      (v v' : World L K)
      → Confined v
      → Whole f p c v'
      → ((q : Ptr) → p ≢ q → load v'.kcps q ≡ load v.kcps q)
      → v'.callbacks ≡ v.callbacks
      → v'.statics.addresses ≡ v.statics.addresses
      → Confined v'
  Confined-alike v v' i whole kcps callbacks addresses = record {
    whole = whole;
    kcps = λ q differ. kcps q differ ∙ i.kcps q differ;
    callbacks = λ d differ. ap (λ h. load h d) callbacks ∙ i.callbacks d differ;
    blocks = λ q x differ e. ap (λ h. load h q) addresses ∙ i.blocks q x differ e;
    own_block = λ cb b l e. i.own_block cb b (ap (λ h. load h c) (sym callbacks) ∙ l) e;
    own_address = λ cb b x l e h.
        i.own_address cb b x (ap (λ z. load z c) (sym callbacks) ∙ l) e
          (ap (λ z. load z b) (sym addresses) ∙ h);
    count = ap live addresses ∙ i.count;
  }

  Confined-Frame : Frame Confined p
  Confined-Frame = record {
    on_vm = λ v m e i.
        Confined-alike v (record v { vm = m }) i ((Whole-Frame f p c).on_vm v m e i.whole)
          (λ q differ. refl) refl refl;
    on_buffer = λ v b e i.
        Confined-alike v (record v { buffer = b }) i ((Whole-Frame f p c).on_buffer v b e i.whole)
          (λ q differ. refl) refl refl;
    on_block = λ v b k e i.
        Confined-alike v (record v { kcps = write v.kcps p (record b { ctl = k }) }) i
          ((Whole-Frame f p c).on_block v b k e i.whole)
          (λ q differ. load-write_ne v.kcps p q (record b { ctl = k }) differ) refl refl;
  }

  -- The connection's own address block is none of the others that were there.
  not_own :
      (v : World L K) (i : Confined v) (q : Ptr) (x : Block)
      → a ≢ q
      → load w.statics.addresses q ≡ some x
      → (Whole-view f p c v i.whole).a ≢ q
  not_own v i q x differ e at =
      let o = Whole-view f p c v i.whole in
      elim (i.own_block o.cb o.a o.addressed.callback o.addressed.address) [
        | inl is ↦ differ (sym is ∙ at)
        | inr free ↦
            let there : load w.statics.addresses o.a ≡ some x =
              ap (load w.statics.addresses) at ∙ e in
            cc
      ]

  -- A block that is not there now is a, or was not there before.
  new_block :
      (v : World L K) (i : Confined v) (b : Ptr)
      → load v.statics.addresses b ≡ none
      → (b ≡ a) ⊎ (load w.statics.addresses b ≡ none)
  new_block v i b free = elim (ℕ_discrete a b) [
    | yes is ↦ inl (sym is)
    | no differ ↦ elim (Option-cases (load w.statics.addresses b)) [
      | inl e ↦ inr e
      | inr (x, e) ↦ let there = i.blocks b x differ e in absurd (cc (there, free))
    ]
  ]

  address-Confined :
      (x : ℕ) (xs : Bytes) (v v' : World L K) (i : Confined v)
      → Holds c (Whole-view f p c v i.whole).a (Whole-view f p c v i.whole).cb (x ∷ xs) v v'
      → Confined v'
  address-Confined x xs v v' i h =
      let o = Whole-view f p c v i.whole in
      record {
        whole = address-Whole f p c x xs v v' i.whole h;
        kcps = λ q differ. ap (λ z. load z q) h.kcps ∙ i.kcps q differ;
        callbacks = λ d differ. h.callbacks d differ ∙ i.callbacks d differ;
        blocks = λ q y differ e. h.blocks q y (not_own v i q y differ e) (i.blocks q y differ e);
        own_block = λ cb b l e.
            let is : b ≡ h.at_block =
              same (sym e ∙ ap (λ (z : Callback). z.address) (same (sym l ∙ h.callback))) in
            elim h.fresh [
              | inl old ↦ elim (i.own_block o.cb o.a o.addressed.callback o.addressed.address) [
                | inl s ↦ inl (is ∙ old ∙ s)
                | inr free ↦ inr (ap (load w.statics.addresses) (is ∙ old) ∙ free)
              ]
              | inr free ↦ new_block v i b (ap (load v.statics.addresses) is ∙ free)
            ];
        own_address = λ cb b y l e stored.
            let is : b ≡ h.at_block =
              same (sym e ∙ ap (λ (z : Callback). z.address) (same (sym l ∙ h.callback))) in
            inr (x, xs, same (sym stored ∙ ap (load v'.statics.addresses) is ∙ h.content));
        count = h.kept ∙ i.count;
      }

  keep_address : (bytes : Bytes) → Keeps Confined (set_address p bytes)
  unfolding set_address
  keep_address [] = Keeps-pure tt
  keep_address (x ∷ xs) = record {
    keep = λ v i.
        let o = Whole-view f p c v i.whole in
        let (v', e, h) = set_address-Holds p c o.a o.cb x xs v o.addressed in
        rw e (returns (address-Confined x xs v v' i h));
  }

  keep_thread : (t : ℕ) → Keeps Confined (run_on t c)
  unfolding run_on load_callback store_callback
  keep_thread t = record {
    keep = λ v i.
        let o = Whole-view f p c v i.whole in
        let new : Callback = record (o.cb) { el = some t } in
        rw (o.addressed.callback, ◌>>=◌)
          (returns (record {
            whole = thread-Whole f p c t v i.whole;
            kcps = i.kcps;
            callbacks = λ d differ. load-write_ne v.callbacks c d new differ ∙ i.callbacks d differ;
            blocks = i.blocks;
            own_block = λ cb b l e.
                let is : new ≡ cb =
                  same (sym (load-write v.callbacks c new o.cb o.addressed.callback) ∙ l) in
                i.own_block o.cb b o.addressed.callback (ap (λ (z : Callback). z.address) is ∙ e);
            own_address = λ cb b x l e h.
                let is : new ≡ cb =
                  same (sym (load-write v.callbacks c new o.cb o.addressed.callback) ∙ l) in
                i.own_address o.cb b x o.addressed.callback
                  (ap (λ (z : Callback). z.address) is ∙ e) h;
            count = i.count;
          }));
  }

  Confined-Serves : Serves f p c Confined
  Confined-Serves = record {
    view = λ v i. Whole-view f p c v i.whole;
    frame = Confined-Frame;
    keep_address = keep_address;
    keep_thread = keep_thread;
    after_packet = λ v m m' ds e empty packs i.
        let v' : World L K = record v {
          vm = m;
          statics = record (v.statics) { ll = some m'; sent = ds };
        } in
        Confined-alike v v' i ((Whole-Serves f p c).after_packet v m m' ds e empty packs i.whole)
          (λ q differ. refl) refl refl;
  }

module _ {L : LuaApi} {K : KcpApi} (lua : Lua.IsLawful L) (lawful : Kcp.IsLawful K)
    (udp_sendbuffer : List Datagram → ℤ) (pk : Packing L) (p c : Ptr) where
  -- A method called on a connection, whatever its other arguments and the socket's answers are and
  -- whether it returns or raises a Lua error, leaves every other connection, every other callback
  -- block and every other address block exactly as they were, provided that every call of
  -- `pack_output` leaves a string. The connection's address stays as it was or becomes a string that
  -- is not empty, no address block is lost, and the invariant holds afterwards.
  pub lkcp_methods-Confined :
      (m : Method) (t : ℕ) (a : Ptr) (cb : Callback) (block : Block) (w : World L K)
      → slot t 1 w ≡ some (kcp (some p))
      → Whole pk.f p c w
      → load w.callbacks c ≡ some cb
      → cb.address ≡ some a
      → load w.statics.addresses a ≡ some block
      → Ends
          (λ _. Confined pk.f p c a block w)
          (Confined pk.f p c a block w)
          (lkcp_methods udp_sendbuffer m t w)
  lkcp_methods-Confined m t a cb block w self i holds address content =
      methods-Ends lua lawful udp_sendbuffer pk p c (Confined pk.f p c a block w)
        (Confined-Serves pk.f p c a block w) m t w self
        (record {
          whole = i;
          kcps = λ q differ. refl;
          callbacks = λ d differ. refl;
          blocks = λ q x differ e. e;
          own_block = λ cb' b l e.
              inl
                (same (sym e ∙ ap (λ (z : Callback). z.address) (same (sym l ∙ holds)) ∙ address));
          own_address = λ cb' b x l e h.
              let is : b ≡ a =
                same (sym e ∙ ap (λ (z : Callback). z.address) (same (sym l ∙ holds)) ∙ address) in
              inl (same (sym h ∙ ap (load w.statics.addresses) is ∙ content));
          count = refl;
        })
