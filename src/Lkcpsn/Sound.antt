-- ===== src/Lkcpsn/Sound.antt =====
-- The invariant of the three heaps of lkcpsn.c, for any number of connections, and the writes that
-- keep it.
use lua_kcp_skynet.Prelude.{ℕ, ◌+◌, none, some, true, ◌≡◌, ◌≢◌, ◌⊎◌, sym, ap, ◌∙◌, length}
use lua_kcp_skynet.Heap.{Ptr, load, live}
use lua_kcp_skynet.Api.Lua.{LuaApi}
use lua_kcp_skynet.Api.Kcp.{KcpApi}
use lua_kcp_skynet.Machine.{Kcb}
use lua_kcp_skynet.Addresses.{Callback, Block, World}
use lua_kcp_skynet.Lkcpsn.{recv_buffer_len}

module _ {L : LuaApi} {K : KcpApi} where
  -- A connection's block has its output set, a callback block with a thread, and an address block
  -- of the size that the callback block says.
  pub record Owned (w : World L K) (b : Kcb K.Ctl) : Type 0 where
    pub c : Ptr
    pub cb : Callback
    pub a : Ptr
    pub block : Block
    pub thread : ℕ
    pub user : b.user ≡ some c
    pub output : b.output ≡ true
    pub callback : load w.callbacks c ≡ some cb
    pub on_thread : cb.el ≡ some thread
    pub address : cb.address ≡ some a
    pub content : load w.statics.addresses a ≡ some block
    pub size : length block ≡ cb.addresssz + 1

  -- No two connections share a callback block or an address block.
  pub record Sound (w : World L K) : Type 0 where
    pub owner : (p : Ptr) (b : Kcb K.Ctl) → load w.kcps p ≡ some b → Owned w b
    pub unique :
        (p q c : Ptr) (x y : Kcb K.Ctl)
        → load w.kcps p ≡ some x
        → load w.kcps q ≡ some y
        → x.user ≡ some c
        → y.user ≡ some c
        → p ≡ q
    pub apart :
        (p q c d a : Ptr) (x y : Kcb K.Ctl) (cb cb' : Callback)
        → load w.kcps p ≡ some x
        → load w.kcps q ≡ some y
        → x.user ≡ some c
        → y.user ≡ some d
        → load w.callbacks c ≡ some cb
        → load w.callbacks d ≡ some cb'
        → cb.address ≡ some a
        → cb'.address ≡ some a
        → p ≡ q
    pub paired : live w.callbacks ≡ live w.kcps
    pub sized : w.buffer.size ≡ recv_buffer_len

  -- Two connections have different callback blocks and different address blocks.
  pub owners-apart :
      (w : World L K) (s : Sound w) (p q : Ptr) (x y : Kcb K.Ctl) (held : load w.kcps p ≡ some x)
      → (held' : load w.kcps q ≡ some y) → p ≢ q
      → ((s.owner p x held).c ≢ (s.owner q y held').c)
        × ((s.owner p x held).a ≢ (s.owner q y held').a)
  owners-apart w s p q x y held held' differ =
      let o = s.owner p x held in
      let o' = s.owner q y held' in
      (
        λ is. differ (s.unique p q o.c x y held held' o.user (o'.user ∙ ap some (sym is))),
        λ is. differ (
            s.apart p q o.c o'.c o.a x y o.cb o'.cb held held' o.user o'.user o.callback o'.callback
              o.address (o'.address ∙ ap some (sym is))),
      )

  -- A state in which the connections are the same but for their control blocks.
  pub Sound-alike :
      (w w' : World L K)
      → Sound w
      → ((q : Ptr) (y : Kcb K.Ctl)
          → load w'.kcps q ≡ some y
          → (x : Kcb K.Ctl) × (load w.kcps q ≡ some x) × (x.user ≡ y.user) × (x.output ≡ y.output))
      → live w'.kcps ≡ live w.kcps
      → w'.callbacks ≡ w.callbacks
      → w'.statics.addresses ≡ w.statics.addresses
      → w'.buffer.size ≡ w.buffer.size
      → Sound w'
  Sound-alike w w' s alike count callbacks addresses size = record {
    owner = λ q y r.
        let (x, old, user, out) = alike q y r in
        let o = s.owner q x old in
        record {
          c = o.c;
          cb = o.cb;
          a = o.a;
          block = o.block;
          thread = o.thread;
          user = sym user ∙ o.user;
          output = sym out ∙ o.output;
          callback = rw callbacks o.callback;
          on_thread = o.on_thread;
          address = o.address;
          content = rw addresses o.content;
          size = o.size;
        };
    unique = λ p q c x y r r' u u'.
        let (x0, old, user, out) = alike p x r in
        let (y0, old', user', out') = alike q y r' in
        s.unique p q c x0 y0 old old' (user ∙ u) (user' ∙ u');
    apart = λ p q c d a x y cb cb' r r' u u' l l' e e'.
        let (x0, old, user, out) = alike p x r in
        let (y0, old', user', out') = alike q y r' in
        s.apart p q c d a x0 y0 cb cb' old old' (user ∙ u) (user' ∙ u')
          (ap (λ h. load h c) (sym callbacks) ∙ l) (ap (λ h. load h d) (sym callbacks) ∙ l') e e';
    paired = ap live callbacks ∙ s.paired ∙ sym count;
    sized = size ∙ s.sized;
  }

  -- The connection p has the callback block c.
  pub record Open (p c : Ptr) (w : World L K) : Type 0 where
    pub sound : Sound w
    pub b : Kcb K.Ctl
    pub held : load w.kcps p ≡ some b
    pub user : b.user ≡ some c

  -- What a write to the callback block c, and to the address blocks, must leave: the new address
  -- block is the old one or was free, and no other block is touched.
  pub record Readdressed (c a : Ptr) (new : Callback) (w w' : World L K) : Type 0 where
    pub kcps : w'.kcps ≡ w.kcps
    pub callback : load w'.callbacks c ≡ some new
    pub callbacks : (d : Ptr) → c ≢ d → load w'.callbacks d ≡ load w.callbacks d
    pub count : live w'.callbacks ≡ live w.callbacks
    pub at_block : Ptr
    pub block : Block
    pub thread : ℕ
    pub address : new.address ≡ some at_block
    pub on_thread : new.el ≡ some thread
    pub content : load w'.statics.addresses at_block ≡ some block
    pub size : length block ≡ new.addresssz + 1
    pub fresh : (at_block ≡ a) ⊎ (load w.statics.addresses at_block ≡ none)
    pub blocks :
        (q : Ptr) (x : Block)
        → a ≢ q
        → load w.statics.addresses q ≡ some x
        → load w'.statics.addresses q ≡ some x
    pub buffer : w'.buffer ≡ w.buffer
