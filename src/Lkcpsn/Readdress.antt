-- ===== src/Lkcpsn/Readdress.antt =====
-- A connection gets another address, or runs on another thread: the invariant holds on.
use native.Mathlib.Decide.{ℕ_discrete}
use lua_kcp_skynet.Prelude.{same, some, ◌≡◌, ◌≢◌, inl, inr, sym, ap, ◌∙◌}
use lua_kcp_skynet.Heap.{Ptr, load, live}
use lua_kcp_skynet.Api.Lua.{LuaApi}
use lua_kcp_skynet.Api.Kcp.{KcpApi}
use lua_kcp_skynet.Machine.{Kcb}
use lua_kcp_skynet.Addresses.{Callback, World}
use lua_kcp_skynet.Lkcpsn.Sound.{Owned, Sound, Open, Readdressed}

module _ {L : LuaApi} {K : KcpApi} (p c : Ptr) (w w' : World L K) (i : Open p c w) where
  abbrev own : Owned w i.b
  own = i.sound.owner p i.b i.held

  module _ (new : Callback) (r : Readdressed c own.a new w w') where
    back : (q : Ptr) (x : Kcb K.Ctl) → load w'.kcps q ≡ some x → load w.kcps q ≡ some x
    back q x e = ap (λ h. load h q) (sym r.kcps) ∙ e

    -- Another connection has other blocks.
    other_callback :
        (q d : Ptr) (x : Kcb K.Ctl) → p ≢ q → load w.kcps q ≡ some x → x.user ≡ some d → c ≢ d
    other_callback q d x differ e u is =
        differ (i.sound.unique p q d i.b x i.held e (i.user ∙ ap some is) u)

    old_callback :
        (q d : Ptr) (x : Kcb K.Ctl) (cb : Callback)
        → p ≢ q
        → load w.kcps q ≡ some x
        → x.user ≡ some d
        → load w'.callbacks d ≡ some cb
        → load w.callbacks d ≡ some cb
    old_callback q d x cb differ e u l = sym (r.callbacks d (other_callback q d x differ e u)) ∙ l

    own-callback : load w.callbacks c ≡ some own.cb
    own-callback = ap (load w.callbacks) (same (sym i.user ∙ own.user)) ∙ own.callback

    other_address :
        (q d a : Ptr) (x : Kcb K.Ctl) (cb : Callback)
        → p ≢ q
        → load w.kcps q ≡ some x
        → x.user ≡ some d
        → load w.callbacks d ≡ some cb
        → cb.address ≡ some a
        → own.a ≢ a
    other_address q d a x cb differ e u l at_a is = differ (
        i.sound.apart p q c d a i.b x own.cb cb i.held e i.user u own-callback l
          (own.address ∙ ap some is) at_a)

    -- Nor does another connection have the new address block.
    not_new :
        (q d a : Ptr) (x : Kcb K.Ctl) (cb : Callback)
        → p ≢ q
        → load w.kcps q ≡ some x
        → x.user ≡ some d
        → load w.callbacks d ≡ some cb
        → cb.address ≡ some a
        → r.at_block ≢ a
    not_new q d a x cb differ e u l at_a is = elim (r.fresh) [
      | inl old ↦ other_address q d a x cb differ e u l at_a (sym old ∙ is)
      | inr free ↦
          let o = i.sound.owner q x e in
          let same_d : o.c ≡ d = same (sym o.user ∙ u) in
          let same_cb : o.cb ≡ cb = same (sym o.callback ∙ ap (load w.callbacks) same_d ∙ l) in
          let same_a : o.a ≡ a =
            same (sym o.address ∙ ap (λ (z : Callback). z.address) same_cb ∙ at_a) in
          let there : load w.statics.addresses r.at_block ≡ some o.block =
            ap (load w.statics.addresses) (is ∙ sym same_a) ∙ o.content in
          cc
    ]

    readdressed-owner : (q : Ptr) (x : Kcb K.Ctl) → load w'.kcps q ≡ some x → Owned w' x
    readdressed-owner q x e = elim (ℕ_discrete p q) [
      | yes is ↦
          let x_is : i.b ≡ x = same (sym i.held ∙ ap (load w.kcps) is ∙ back q x e) in
          record {
            c = c;
            cb = new;
            a = r.at_block;
            block = r.block;
            thread = r.thread;
            user = ap (λ (z : Kcb K.Ctl). z.user) (sym x_is) ∙ i.user;
            output = ap (λ (z : Kcb K.Ctl). z.output) (sym x_is) ∙ own.output;
            callback = r.callback;
            on_thread = r.on_thread;
            address = r.address;
            content = r.content;
            size = r.size;
          }
      | no differ ↦
          let o = i.sound.owner q x (back q x e) in
          record {
            c = o.c;
            cb = o.cb;
            a = o.a;
            block = o.block;
            thread = o.thread;
            user = o.user;
            output = o.output;
            callback =
                r.callbacks o.c (other_callback q o.c x differ (back q x e) o.user) ∙ o.callback;
            on_thread = o.on_thread;
            address = o.address;
            content =
                r.blocks o.a o.block
                  (other_address q o.c o.a x o.cb differ (back q x e) o.user o.callback o.address)
                  o.content;
            size = o.size;
          }
    ]

    -- The connection p and another one.
    apart_new :
        (q d a : Ptr) (x y : Kcb K.Ctl) (cb cb' : Callback)
        → p ≢ q
        → load w.kcps p ≡ some x
        → load w.kcps q ≡ some y
        → (c' : Ptr) → x.user ≡ some c'
        → y.user ≡ some d
        → load w'.callbacks c' ≡ some cb
        → load w'.callbacks d ≡ some cb'
        → cb.address ≡ some a
        → cb'.address ≡ some a
        → ⊥
    apart_new q d a x y cb cb' differ e e' c' u u' l l' at_a at_a' =
        let x_is : i.b ≡ x = same (sym i.held ∙ e) in
        let c_is : c ≡ c' = same (sym i.user ∙ ap (λ (z : Kcb K.Ctl). z.user) x_is ∙ u) in
        let cb_is : new ≡ cb = same (sym r.callback ∙ ap (load w'.callbacks) c_is ∙ l) in
        not_new q d a y cb' differ e' u' (old_callback q d y cb' differ e' u' l') at_a'
          (same (sym r.address ∙ ap (λ (z : Callback). z.address) cb_is ∙ at_a))

    pub Sound-readdressed : Sound w'
    Sound-readdressed = record {
      owner = readdressed-owner;
      unique = λ q q' d x y e e'. i.sound.unique q q' d x y (back q x e) (back q' y e');
      apart = λ q q' d d' a x y cb cb' e e' u u' l l' at_a at_a'. elim (ℕ_discrete p q) [
        | yes is ↦ elim (ℕ_discrete p q') [
          | yes is' ↦ sym is ∙ is'
          | no differ' ↦ absurd (
              apart_new q' d' a x y cb cb' differ' (ap (load w.kcps) is ∙ back q x e) (back q' y e')
                d u u' l l' at_a at_a')
        ]
        | no differ ↦ elim (ℕ_discrete p q') [
          | yes is' ↦ absurd (
              apart_new q d a y x cb' cb differ (ap (load w.kcps) is' ∙ back q' y e') (back q x e)
                d' u' u l' l at_a' at_a)
          | no differ' ↦
              i.sound.apart q q' d d' a x y cb cb' (back q x e) (back q' y e') u u'
                (old_callback q d x cb differ (back q x e) u l)
                (old_callback q' d' y cb' differ' (back q' y e') u' l') at_a at_a'
        ]
      ];
      paired = r.count ∙ i.sound.paired ∙ ap live (sym r.kcps);
      sized = rw r.buffer i.sound.sized;
    }
