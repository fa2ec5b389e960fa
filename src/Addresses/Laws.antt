-- ===== src/Addresses/Laws.antt =====
-- What an address block holds after `set_address`.
use lua_kcp_skynet.Prelude.{
  ◌≢◌, ◌⊎◌, inl, inr, ℕ, ◌+◌, Bool, true, false, ◌∷◌, none, some, length, length-replicate,
  replicate, ◌==◌, ◌≡◌, refl, sym, ap, ◌∙◌, arith,
}
use lua_kcp_skynet.Heap.{Ptr, Heap, load, alloc, write, free, live}
use lua_kcp_skynet.Heap.Laws.{
  load-write, load-alloc, write-alloc, live-alloc, live-write, live-free, load-write_ne,
  load-free_ne, load-alloc_old, alloc-free-fresh,
}
use lua_kcp_skynet.Outcome.{ok, ◌>>=◌}
use lua_kcp_skynet.Api.Lua.{Bytes, LuaApi}
use lua_kcp_skynet.Api.Kcp.{KcpApi}
use lua_kcp_skynet.Machine.{Kcb, load_callback, store_callback}
use lua_kcp_skynet.Machine.Steps.{user_of-ok}
use lua_kcp_skynet.Addresses.{Callback, Block, World, malloc, free_address, resize, set_address}
use lua_kcp_skynet.Addresses.Fill.{c_string, with_addresses, fill-ok}

module _ {L : LuaApi} {K : KcpApi} where
  -- The connection p has the callback block c, whose address block a is as large as the field
  -- says, with the byte after it.
  pub record Addressed (p c a : Ptr) (cb : Callback) (w : World L K) : Type 0 where
    pub b : Kcb K.Ctl
    pub held : load w.kcps p ≡ some b
    pub user : b.user ≡ some c
    pub callback : load w.callbacks c ≡ some cb
    pub address : cb.address ≡ some a
    pub block : Block
    pub content : load w.statics.addresses a ≡ some block
    pub size : length block ≡ cb.addresssz + 1

  -- What an address set to some bytes leaves: the callback block points to a block that holds
  -- exactly these bytes and a NUL, and no block is lost.
  pub record Holds (c a : Ptr) (cb : Callback) (bytes : Bytes) (w w' : World L K) : Type 0 where
    pub at_block : Ptr
    pub callback :
        load w'.callbacks c ≡ some (record cb { address = some at_block; addresssz = length bytes })
    pub content : load w'.statics.addresses at_block ≡ some (c_string bytes)
    pub kept : live w'.statics.addresses ≡ live w.statics.addresses
    pub callbacks_kept : live w'.callbacks ≡ live w.callbacks
    pub vm : w'.vm ≡ w.vm
    pub kcps : w'.kcps ≡ w.kcps
    pub sent : w'.statics.sent ≡ w.statics.sent
    pub ll : w'.statics.ll ≡ w.statics.ll
    pub buffer : w'.buffer ≡ w.buffer
    pub callbacks : (d : Ptr) → c ≢ d → load w'.callbacks d ≡ load w.callbacks d
    pub fresh : (at_block ≡ a) ⊎ (load w.statics.addresses at_block ≡ none)
    pub blocks :
        (q : Ptr) (x : Block)
        → a ≢ q
        → load w.statics.addresses q ≡ some x
        → load w'.statics.addresses q ≡ some x

  -- Where the address goes: into the same block if the size is the same, else into a new one.
  placed : Ptr → Ptr → Callback → Bytes → Bool → World L K → Ptr × World L K
  placed c a cb bytes true w = (a, with_addresses w (write w.statics.addresses a (c_string bytes)))
  placed c a cb bytes false w =
      let h = free w.statics.addresses a in
      let new = (alloc h (c_string bytes)).0 in
      (
        new,
        record (with_addresses w (alloc h (c_string bytes)).1) {
          callbacks =
              write w.callbacks c (record cb { address = some new; addresssz = length bytes });
        },
      )

  -- The state between the new block's `malloc` and its `memset`.
  resized : Ptr → Ptr → Callback → ℕ → World L K → World L K
  resized c a cb n w =
      let h = free w.statics.addresses a in
      record (with_addresses w (alloc h (replicate (n + 1) none)).1) {
        callbacks =
            write w.callbacks c
              (record cb { address = some (alloc h (replicate (n + 1) none)).0; addresssz = n });
      }

  resize-ok :
      (c a : Ptr) (cb : Callback) (n : ℕ) (block : Block) (w : World L K)
      → cb.address ≡ some a
      → load w.statics.addresses a ≡ some block
      → resize c cb n false w ≡ ok tt (resized c a cb n w)
  unfolding resize free_address malloc store_callback resized
  resize-ok c a cb n block w here e = rw (here, ◌>>=◌, e)

  set_address-eq :
      (p c a : Ptr) (cb : Callback) (x : ℕ) (xs : Bytes) (w : World L K)
      → Addressed p c a cb w
      → (same : Bool) → (cb.addresssz == length (x ∷ xs)) ≡ same
      → set_address p (x ∷ xs) w ≡ ok tt (placed c a cb (x ∷ xs) same w).1
  unfolding set_address load_callback resize placed resized alloc
  set_address-eq p c a cb x xs w d true e =
      rw (user_of-ok p c d.b w d.held d.user, ◌>>=◌, d.callback, e, ◌>>=◌, d.callback, d.address)
        (fill-ok a d.block (x ∷ xs) w d.content (ground (arith, e, d.size)))
  set_address-eq p c a cb x xs w d false e =
      let n = length (x ∷ xs) in
      let h = free w.statics.addresses a in
      let new = (alloc h (replicate (n + 1) none)).0 in
      rw
        (
          user_of-ok p c d.b w d.held d.user,
          ◌>>=◌,
          d.callback,
          e,
          resize-ok c a cb n d.block w d.address d.content,
          ◌>>=◌,
          load-write w.callbacks c (record cb { address = some new; addresssz = n }) cb d.callback,
        )
        (fill-ok new (replicate (n + 1) none) (x ∷ xs) (resized c a cb n w)
            (load-alloc h (replicate (n + 1) none)) (length-replicate (n + 1) none)
          ∙ ap
              (λ (h' : Heap Block). ok tt (record (with_addresses w h') {
                callbacks = write w.callbacks c (record cb { address = some new; addresssz = n });
              }))
              (write-alloc h (replicate (n + 1) none) (c_string (x ∷ xs))))

  placed-Holds :
      (p c a : Ptr) (cb : Callback) (x : ℕ) (xs : Bytes) (w : World L K)
      → Addressed p c a cb w
      → (same : Bool) → (cb.addresssz == length (x ∷ xs)) ≡ same
      → Holds c a cb (x ∷ xs) w (placed c a cb (x ∷ xs) same w).1
  unfolding placed
  placed-Holds p c a cb x xs w d true e =
      let n : length (x ∷ xs) ≡ cb.addresssz = ground (arith, e) in
      record {
        at_block = a;
        callback = rw (sym d.address, n) d.callback;
        content = load-write w.statics.addresses a (c_string (x ∷ xs)) d.block d.content;
        kept = live-write w.statics.addresses a (c_string (x ∷ xs)) d.block d.content;
        callbacks_kept = refl;
        vm = refl;
        kcps = refl;
        sent = refl;
        ll = refl;
        buffer = refl;
        callbacks = λ q differ. refl;
        fresh = inl refl;
        blocks =
            λ q y differ e. load-write_ne w.statics.addresses a q (c_string (x ∷ xs)) differ ∙ e;
      }
  placed-Holds p c a cb x xs w d false e =
      let h = free w.statics.addresses a in
      record {
        at_block = (alloc h (c_string (x ∷ xs))).0;
        callback = load-write w.callbacks c _ cb d.callback;
        content = load-alloc h (c_string (x ∷ xs));
        kept =
            omega
              (arith, live-alloc h (c_string (x ∷ xs)), live-free w.statics.addresses a d.content);
        callbacks_kept = live-write w.callbacks c _ cb d.callback;
        vm = refl;
        kcps = refl;
        sent = refl;
        ll = refl;
        buffer = refl;
        callbacks = λ q differ. load-write_ne w.callbacks c q _ differ;
        fresh = inr (alloc-free-fresh w.statics.addresses a (c_string (x ∷ xs)) d.content);
        blocks = λ q y differ e.
            load-alloc_old h (c_string (x ∷ xs)) q
              (load-free_ne w.statics.addresses a q differ ∙ e);
      }

  pub set_address-Holds :
      (p c a : Ptr) (cb : Callback) (x : ℕ) (xs : Bytes) (w : World L K)
      → Addressed p c a cb w
      → (w' : World L K) × (set_address p (x ∷ xs) w ≡ ok tt w') × Holds c a cb (x ∷ xs) w w'
  set_address-Holds p c a cb x xs w d = (
    (placed c a cb (x ∷ xs) (cb.addresssz == length (x ∷ xs)) w).1,
    set_address-eq p c a cb x xs w d _ refl,
    placed-Holds p c a cb x xs w d _ refl,
  )
