-- ===== src/Lkcpsn/Gc.antt =====
-- `kcp_gc` of lkcpsn.c: what the finalizer frees.
use lua_kcp_skynet.Prelude.{◌+◌, Option, none, some, ◌≡◌, ◌≢◌}
use lua_kcp_skynet.Heap.{Ptr, load, write, free, live}
use lua_kcp_skynet.Heap.Laws.{
  load-write, load-free_self, load-free_ne, free-write, write-write, live-free,
}
use lua_kcp_skynet.Outcome.{ok, ◌>>=◌}
use lua_kcp_skynet.Api.Lua.{kcp, LuaApi}
use lua_kcp_skynet.Api.Kcp.{KcpApi}
use lua_kcp_skynet.Machine.{
  slot, check_kcp, load_kcp, store_kcp, load_callback, store_callback, free_callback, release,
}
use lua_kcp_skynet.Addresses.{Block, Callback, World, free_address}
use lua_kcp_skynet.Addresses.Fill.{with_addresses}
use lua_kcp_skynet.Addresses.Laws.{Addressed}
use lua_kcp_skynet.Lkcpsn.{kcp_gc, gc_block, free_user}

module _ {L : LuaApi} {K : KcpApi} where
  free_address-ok :
      (o : Option Ptr) (a : Ptr) (block : Block) (w : World L K)
      → o ≡ some a
      → load w.statics.addresses a ≡ some block
      → free_address o w ≡ ok tt (with_addresses w (free w.statics.addresses a))
  unfolding free_address
  free_address-ok o a block w here e = rw (here, ◌>>=◌, e)

module _ {L : LuaApi} {K : KcpApi} (t p c a : Ptr) (cb : Callback) (w : World L K)
    (d : Addressed p c a cb w) (self : slot t 1 w ≡ some (kcp (some p))) where
  abbrev pub collected : World L K
  collected = record w {
    kcps = free w.kcps p;
    callbacks = free w.callbacks c;
    statics = record (w.statics) { addresses = free w.statics.addresses a };
  }

  free_user-eq :
      free_user p (some c) w
      ≡ ok tt (record collected { kcps = write w.kcps p (record d.b { user = none }) })
  unfolding free_user load_kcp store_kcp load_callback store_callback free_callback
  free_user-eq =
      let first : Callback = record cb { l = none; el = none } in
      let last : Callback = record cb { l = none; el = none; address = none } in
      rw (
        d.callback,
        ◌>>=◌,
        free_address-ok cb.address a d.block (record w { callbacks = write w.callbacks c first })
            d.address d.content,
        ◌>>=◌,
        write-write w.callbacks c first last,
        load-write w.callbacks c last cb d.callback,
        ◌>>=◌,
        d.held,
        free-write w.callbacks c last,
      )

  pub kcp_gc-eq : kcp_gc t w ≡ ok 0 collected
  unfolding kcp_gc gc_block check_kcp load_kcp release
  kcp_gc-eq = rw (
    self,
    ◌>>=◌,
    d.held,
    ◌>>=◌,
    d.user,
    free_user-eq,
    ◌>>=◌,
    load-write w.kcps p (record d.b { user = none }) d.b d.held,
    free-write w.kcps p (record d.b { user = none }),
  )

  -- The finalizer of a connection that has its two blocks frees the connection, its callback block
  -- and its address block, each once, and leaves every other block as it was. It needs no living
  -- thread.
  pub kcp_gc-frees :
      (w' : World L K) × (kcp_gc t w ≡ ok 0 w')
      × (load w'.kcps p ≡ none)
      × (load w'.callbacks c ≡ none)
      × (load w'.statics.addresses a ≡ none)
      × (live w'.kcps + 1 ≡ live w.kcps)
      × (live w'.callbacks + 1 ≡ live w.callbacks)
      × (live w'.statics.addresses + 1 ≡ live w.statics.addresses)
      × ((q : Ptr) → p ≢ q → load w'.kcps q ≡ load w.kcps q)
      × ((q : Ptr) → c ≢ q → load w'.callbacks q ≡ load w.callbacks q)
      × ((q : Ptr) → a ≢ q → load w'.statics.addresses q ≡ load w.statics.addresses q)
  kcp_gc-frees = (
    collected,
    kcp_gc-eq,
    load-free_self w.kcps p,
    load-free_self w.callbacks c,
    load-free_self w.statics.addresses a,
    live-free w.kcps p d.held,
    live-free w.callbacks c d.callback,
    live-free w.statics.addresses a d.content,
    λ q ne. load-free_ne w.kcps p q ne,
    λ q ne. load-free_ne w.callbacks c q ne,
    λ q ne. load-free_ne w.statics.addresses a q ne,
  )
