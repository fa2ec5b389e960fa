-- ===== src/Lkcpsn/Blocks.antt =====
-- A connection more, a connection less, or an address block that is lost: none breaks the invariant.
use lua_kcp_skynet.Prelude.{
  same, ℕ, ◌+◌, some, true, ◌≡◌, ◌≢◌, inl, inr, sym, ap, ◌∙◌, arith, length,
}
use lua_kcp_skynet.Heap.{Ptr, load, alloc}
use lua_kcp_skynet.Heap.Laws.{load-alloc, load-alloc_old, load-alloc_of, load-fresh, live-alloc}
use lua_kcp_skynet.Api.Lua.{LuaApi}
use lua_kcp_skynet.Api.Kcp.{KcpApi}
use lua_kcp_skynet.Machine.{Kcb}
use lua_kcp_skynet.Addresses.{Callback, Block, World}
use lua_kcp_skynet.Lkcpsn.Sound.{Owned, Sound}

module _ {L : LuaApi} {K : KcpApi} (w : World L K) (s : Sound w) where
  module _ (k : K.Ctl) (block : Block) (cb : Callback) (thread : ℕ)
      (on_thread : cb.el ≡ some thread)
      (address : cb.address ≡ some (alloc w.statics.addresses block).0)
      (size : length block ≡ cb.addresssz + 1) where
    abbrev a : Ptr
    a = (alloc w.statics.addresses block).0

    abbrev c : Ptr
    c = (alloc w.callbacks cb).0

    abbrev pub new_kcp : Kcb K.Ctl
    new_kcp = record { ctl = k; user = some c; output = true }

    abbrev pub added : World L K
    added = record w {
      callbacks = (alloc w.callbacks cb).1;
      kcps = (alloc w.kcps new_kcp).1;
      statics = record (w.statics) { addresses = (alloc w.statics.addresses block).1 };
    }

    old_owner : (q : Ptr) (x : Kcb K.Ctl) → load w.kcps q ≡ some x → Owned added x
    old_owner q x old =
        let o = s.owner q x old in
        record {
          c = o.c;
          cb = o.cb;
          a = o.a;
          block = o.block;
          thread = o.thread;
          user = o.user;
          output = o.output;
          callback = load-alloc_old w.callbacks cb o.c o.callback;
          on_thread = o.on_thread;
          address = o.address;
          content = load-alloc_old w.statics.addresses block o.a o.content;
          size = o.size;
        }

    -- No older connection has one of the new blocks.
    not_c : (q d : Ptr) (x : Kcb K.Ctl) → load w.kcps q ≡ some x → x.user ≡ some d → d ≢ c
    not_c q d x old u is =
        let o = s.owner q x old in
        let there : load w.callbacks c ≡ some o.cb =
          ap (load w.callbacks) (sym is ∙ same (sym u ∙ o.user)) ∙ o.callback in
        cc (load-fresh w.callbacks cb)

    old_cb :
        (q d : Ptr) (x : Kcb K.Ctl) (y : Callback)
        → load w.kcps q ≡ some x
        → x.user ≡ some d
        → load (alloc w.callbacks cb).1 d ≡ some y
        → load w.callbacks d ≡ some y
    old_cb q d x y old u l =
        let o = s.owner q x old in
        let d_is : o.c ≡ d = same (sym o.user ∙ u) in
        let there : load (alloc w.callbacks cb).1 d ≡ some o.cb =
          ap (load (alloc w.callbacks cb).1) (sym d_is)
          ∙ load-alloc_old w.callbacks cb o.c o.callback in
        ap (load w.callbacks) (sym d_is) ∙ o.callback ∙ sym there ∙ l

    not_a :
        (q d : Ptr) (x : Kcb K.Ctl) (y : Callback)
        → load w.kcps q ≡ some x
        → x.user ≡ some d
        → load w.callbacks d ≡ some y
        → y.address ≢ some a
    not_a q d x y old u l at_a =
        let o = s.owner q x old in
        let d_is : o.c ≡ d = same (sym o.user ∙ u) in
        let y_is : o.cb ≡ y = same (sym o.callback ∙ ap (load w.callbacks) d_is ∙ l) in
        let a_is : o.a ≡ a = same (sym o.address ∙ ap (λ (z : Callback). z.address) y_is ∙ at_a) in
        let there : load w.statics.addresses a ≡ some o.block =
          ap (load w.statics.addresses) (sym a_is) ∙ o.content in
        cc (load-fresh w.statics.addresses block)

    new_user : (x : Kcb K.Ctl) (d : Ptr) → x ≡ new_kcp → x.user ≡ some d → d ≡ c
    new_user x d is u = same (sym u ∙ ap (λ (z : Kcb K.Ctl). z.user) is)

    new_address :
        (d a' : Ptr) (y : Callback)
        → d ≡ c
        → load (alloc w.callbacks cb).1 d ≡ some y
        → y.address ≡ some a'
        → a' ≡ a
    new_address d a' y is l at_a =
        let y_is : cb ≡ y =
          same
            (sym (load-alloc w.callbacks cb) ∙ ap (load (alloc w.callbacks cb).1) (sym is) ∙ l) in
        same (sym at_a ∙ ap (λ (z : Callback). z.address) (sym y_is) ∙ address)

    apart_new :
        (q d d' a' : Ptr) (x y : Kcb K.Ctl) (z z' : Callback)
        → x ≡ new_kcp
        → load w.kcps q ≡ some y
        → x.user ≡ some d
        → y.user ≡ some d'
        → load (alloc w.callbacks cb).1 d ≡ some z
        → load (alloc w.callbacks cb).1 d' ≡ some z'
        → z.address ≡ some a'
        → z'.address ≡ some a'
        → ⊥
    apart_new q d d' a' x y z z' is old u u' l l' at_a at_a' =
        not_a q d' y z' old u' (old_cb q d' y z' old u' l')
          (at_a' ∙ ap some (new_address d a' z (new_user x d is u) l at_a))

    pub added-Sound : Sound added
    added-Sound = record {
      owner = λ q x r. elim (load-alloc_of w.kcps new_kcp q x r) [
        | inl (at, is) ↦ record {
          c = c;
          cb = cb;
          a = a;
          block = block;
          thread = thread;
          user = ap (λ (z : Kcb K.Ctl). z.user) is;
          output = ap (λ (z : Kcb K.Ctl). z.output) is;
          callback = load-alloc w.callbacks cb;
          on_thread = on_thread;
          address = address;
          content = load-alloc w.statics.addresses block;
          size = size;
        }
        | inr old ↦ old_owner q x old
      ];
      unique = λ q q' d x y r r' u u'. elim (load-alloc_of w.kcps new_kcp q x r) [
        | inl (at, is) ↦ elim (load-alloc_of w.kcps new_kcp q' y r') [
          | inl (at', is') ↦ at ∙ sym at'
          | inr old' ↦ absurd (not_c q' d y old' u' (new_user x d is u))
        ]
        | inr old ↦ elim (load-alloc_of w.kcps new_kcp q' y r') [
          | inl (at', is') ↦ absurd (not_c q d x old u (new_user y d is' u'))
          | inr old' ↦ s.unique q q' d x y old old' u u'
        ]
      ];
      apart = λ q q' d d' a' x y z z' r r' u u' l l' e e'.
          elim (load-alloc_of w.kcps new_kcp q x r) [
            | inl (at, is) ↦ elim (load-alloc_of w.kcps new_kcp q' y r') [
              | inl (at', is') ↦ at ∙ sym at'
              | inr old' ↦ absurd (apart_new q' d d' a' x y z z' is old' u u' l l' e e')
            ]
            | inr old ↦ elim (load-alloc_of w.kcps new_kcp q' y r') [
              | inl (at', is') ↦ absurd (apart_new q d' d a' y x z' z is' old u' u l' l e' e)
              | inr old' ↦
                  s.apart q q' d d' a' x y z z' old old' u u' (old_cb q d x z old u l)
                    (old_cb q' d' y z' old' u' l') e e'
            ]
          ];
      paired = omega (arith, s.paired, live-alloc w.callbacks cb, live-alloc w.kcps new_kcp);
      sized = s.sized;
    }
