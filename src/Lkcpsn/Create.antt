-- ===== src/Lkcpsn/Create.antt =====
-- `lkcp_create`: the connection's address block, and the socket of the process.
use mathlib.Core.List.{append_assoc}
use lua_kcp_skynet.Prelude.{
  ℕ, ◌+◌, ◌≤◌, ◌<◌, ◌&&◌, not, true, ◌++◌, [], ◌∷◌, none, some, ◌≡◌, ◌≢◌, refl, ◌∙◌, length, ◌==◌,
  if◌then◌else◌, arith,
}
use lua_kcp_skynet.Prelude.Int.{ℤ}
use lua_kcp_skynet.Prelude.Word.{u32, u64, u32-int32}
use lua_kcp_skynet.Heap.{Ptr, load, alloc, free, live}
use lua_kcp_skynet.Heap.Laws.{load-alloc, load-alloc_at, write-alloc, live-alloc, live-free}
use lua_kcp_skynet.Outcome.{ok, fault, pure, ◌>>=◌, and_then}
use lua_kcp_skynet.Api.Lua.{Bytes, Value, nil, integer, string, kcp, LuaApi}
use lua_kcp_skynet.Api.Lua
use lua_kcp_skynet.Api.Kcp.{KcpApi}
use lua_kcp_skynet.Machine.{
  text, alloc_callback, free_callback, load_callback, load_kcp, store_kcp, push, create,
}
use lua_kcp_skynet.Machine.Steps.{check_integer-ok, check_string-ok, create-ok, create-null, bare}
use lua_kcp_skynet.Addresses.{Callback, World, print_address}
use lua_kcp_skynet.Addresses.Fill.{c_string, new_address-ok}
use lua_kcp_skynet.Addresses.Laws.{Addressed}
use lua_kcp_skynet.Addresses.Print.{print_address-ok, print_address-short, length-c_string}
use lua_kcp_skynet.Lkcpsn.{bind_socket, connect, created, lkcp_create}

module _ {L : LuaApi} {K : KcpApi} (lua : Lua.IsLawful L) (t : ℕ) (sock conv : ℤ) (address : Bytes)
    (w : World L K)
    (call : L.slots w.vm t ≡ integer sock ∷ string address ∷ integer conv ∷ []) where
  abbrev callback : Callback
  callback = record {
    handle = 0;
    l = some t;
    el = some t;
    address = some (alloc w.statics.addresses (c_string address)).0;
    addresssz = length address;
  }

  abbrev c_of : Ptr
  c_of = (alloc w.callbacks callback).0

  -- The state once both blocks are filled.
  allocated : World L K
  allocated = record w {
    callbacks = (alloc w.callbacks callback).1;
    statics = record (w.statics) {
      addresses = (alloc w.statics.addresses (c_string address)).1;
      svrsock =
          if not (u64 sock == 0) && (w.statics.svrsock == 0) then u64 sock else w.statics.svrsock;
    };
  }

  lkcp_create-start : lkcp_create t w ≡ and_then (create (u32 conv) c_of allocated) (created t c_of)
  unfolding lkcp_create bind_socket connect alloc_callback allocated
  lkcp_create-start = rw (
    check_integer-ok lua t 1 sock w (rw call refl),
    ◌>>=◌,
    check_string-ok lua t 1 address w (rw call refl),
    ◌>>=◌,
    check_integer-ok lua t 3 conv w (rw call refl),
    ◌>>=◌,
    u32-int32 conv,
    new_address-ok,
    ◌>>=◌,
  )

  -- A call `lkcp_create(sock, address, conv)` whose connection cannot be made returns nil and a
  -- message. The callback block is freed, but not the address block that it points to, which
  -- nothing refers to any more.
  pub lkcp_create-leak :
      K.create (u32 conv) ≡ none
      → (w' : World L K) × (lkcp_create t w ≡ ok 2 w')
        × (L.slots w'.vm t ≡ L.slots w.vm t ++ nil ∷ string (text "error: fail to create kcp") ∷ [])
        × (live w'.callbacks ≡ live w.callbacks)
        × (live w'.statics.addresses ≡ live w.statics.addresses + 1)
  unfolding created free_callback load_callback push allocated
  lkcp_create-leak none_made = (
    record allocated {
      vm = L.push t (string (text "error: fail to create kcp")) (L.push t nil w.vm);
      callbacks = free (alloc w.callbacks callback).1 c_of;
    },
    lkcp_create-start
        ∙ rw (
          create-null (u32 conv) c_of allocated none_made,
          ◌>>=◌,
          load-alloc w.callbacks callback,
        ),
    simp (lua.slots-push, append_assoc),
    omega (
      arith,
      live-alloc w.callbacks callback,
      live-free (alloc w.callbacks callback).1 c_of (load-alloc w.callbacks callback),
    ),
    live-alloc w.statics.addresses (c_string address),
  )

  abbrev p_of : K.Ctl → Ptr
  p_of k = (alloc w.kcps (bare k c_of)).0

  -- The state once the connection is made.
  connected : K.Ctl → World L K
  connected k = record allocated {
    vm = L.push t (kcp (some (p_of k))) w.vm;
    kcps = (alloc w.kcps (record (bare k c_of) { output = true })).1;
  }

  -- All but `print_address` is done.
  lkcp_create-printing :
      (k : K.Ctl)
      → K.create (u32 conv) ≡ some k
      → lkcp_create t w
        ≡ and_then
            (print_address
              (alloc w.statics.addresses (c_string address)).0
              (length address)
              (connected k))
            (λ _. pure 1)
  unfolding created load_callback load_kcp store_kcp push allocated connected
  lkcp_create-printing k made =
      lkcp_create-start
      ∙ rw (
        create-ok (u32 conv) c_of k allocated made,
        ◌>>=◌,
        load-alloc w.kcps (bare k c_of),
        ◌>>=◌,
        write-alloc w.kcps (bare k c_of) (record (bare k c_of) { output = true }),
        load-alloc w.callbacks callback,
      )

  connected-content :
      (k : K.Ctl)
      → load (connected k).statics.addresses (alloc w.statics.addresses (c_string address)).0
        ≡ some (c_string address)
  unfolding connected allocated
  connected-content k = load-alloc w.statics.addresses (c_string address)

  -- A call `lkcp_create(sock, address, conv)` with an address of two bytes or more, whose
  -- connection can be made, returns the userdata of a connection whose packets go to that address.
  -- The first socket number that is not 0 is the one that the process keeps.
  pub lkcp_create-Addressed :
      (k : K.Ctl)
      → K.create (u32 conv) ≡ some k
      → 2 ≤ length address
      → (p : Ptr) × (c : Ptr) × (a : Ptr) × (cb : Callback) × (w' : World L K) × (lkcp_create t w
          ≡ ok 1 w')
        × (d : Addressed p c a cb w') × (d.block ≡ c_string address)
        × (d.b.output ≡ true)
        × (L.slots w'.vm t ≡ L.slots w.vm t ++ kcp (some p) ∷ [])
        × (w.statics.svrsock ≡ 0 → w'.statics.svrsock ≡ u64 sock)
        × (w.statics.svrsock ≢ 0 → w'.statics.svrsock ≡ w.statics.svrsock)
  unfolding connected allocated
  lkcp_create-Addressed k made enough =
      let (r, printed) =
        print_address-ok (alloc w.statics.addresses (c_string address)).0 address (connected k)
          (connected-content k) enough in
      (
        p_of k,
        c_of,
        (alloc w.statics.addresses (c_string address)).0,
        callback,
        connected k,
        lkcp_create-printing k made ∙ rw printed refl,
        record {
          b = record (bare k c_of) { output = true };
          held = load-alloc_at w.kcps (bare k c_of) (record (bare k c_of) { output = true });
          user = refl;
          callback = load-alloc w.callbacks callback;
          address = refl;
          block = c_string address;
          content = connected-content k;
          size = length-c_string address;
        },
        refl,
        refl,
        lua.slots-push t _ w.vm,
        λ e. ground (arith, e),
        λ e. ground (arith, e),
      )

  -- A call `lkcp_create(sock, address, conv)` with an address of fewer than two bytes, whose
  -- connection can be made, reads past the address block: `print_address` reads the port's two bytes
  -- before it looks at the size.
  pub lkcp_create-short :
      (k : K.Ctl) → K.create (u32 conv) ≡ some k → length address < 2 → lkcp_create t w ≡ fault
  lkcp_create-short k made short =
      lkcp_create-printing k made
      ∙ rw
          (print_address-short (alloc w.statics.addresses (c_string address)).0 address
            (connected k) (connected-content k) short (length address))
          refl
