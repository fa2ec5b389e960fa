-- ===== src/Lkcp/Safety/Create.antt =====
-- `lkcp_create`: what it allocates, and what it leaves behind when it fails.
use mathlib.Core.List.{append_assoc}
use lua_kcp_skynet.Prelude.{
  ℕ, suc, true, none, some, List, [], ◌∷◌, ◌++◌, ◌≡◌, ◌≢◌, refl, ap, ◌∙◌, arith,
}
use lua_kcp_skynet.Prelude.Int.{ℤ, pos}
use lua_kcp_skynet.Prelude.Word.{u32, u64, u32-int32}
use lua_kcp_skynet.Heap.{Ptr, load, alloc, write, live, free}
use lua_kcp_skynet.Heap.Laws.{
  load-alloc, load-alloc_old, load-fresh, live-alloc, live-free, load-alloc_at, write-alloc,
}
use lua_kcp_skynet.Outcome.{ok, ◌>>=◌, and_then}
use lua_kcp_skynet.Api.Lua.{Value, nil, integer, string, function, kcp, LuaApi}
use lua_kcp_skynet.Api.Lua
use lua_kcp_skynet.Api.Kcp.{KcpApi}
use lua_kcp_skynet.Machine.{
  Kcb, text, push, alloc_callback, free_callback, create, load_kcp, store_kcp, load_callback,
}
use lua_kcp_skynet.Machine.Steps.{new_reference-ok, check_integer-ok, create-ok, create-null, bare}
use lua_kcp_skynet.Lkcp.{Callback, World, lkcp_create, created}
use lua_kcp_skynet.Lkcp.Safety.Sound.{Sound, Sound-on_vm, Open}
use lua_kcp_skynet.Lkcp.Safety.Blocks.{added, added-Sound, dropped_block, dropped_block-Sound}

module _ {L : LuaApi} {K : KcpApi} where
  abbrev pub fresh_callback : ℕ → World L K → Callback
  fresh_callback t w = record { handle = u64 (L.new_reference t w.vm).0; l = some t; el = some t }

  pub created-some :
      (t c p : Ptr) (b : Kcb K.Ctl) (w : World L K)
      → load w.kcps p ≡ some b
      → created t c (some p) w
        ≡ ok 1 (record w {
          vm = L.push t (kcp (some p)) w.vm;
          kcps = write w.kcps p (record b { output = true });
        })
  unfolding created load_kcp store_kcp push
  created-some t c p b w e = rw (e, ◌>>=◌)

  pub created-none :
      (t c : Ptr) (cb : Callback) (w : World L K)
      → load w.callbacks c ≡ some cb
      → created t c none w
        ≡ ok 2 (record w {
          vm = L.push t (string (text "error: fail to create kcp")) (L.push t nil w.vm);
          callbacks = free w.callbacks c;
        })
  unfolding created free_callback load_callback push
  created-none t c cb w e = rw (e, ◌>>=◌)

module _ {L : LuaApi} {K : KcpApi} (lua : Lua.IsLawful L) (t : ℕ) (conv : ℤ) (rest : List Value)
    (f : Value) where
  -- The call `lkcp_create(conv, …, f)`.
  abbrev IsCall : World L K → Type 0
  IsCall w = L.slots w.vm t ≡ integer conv ∷ (rest ++ f ∷ [])

  abbrev taken : World L K → L.Vm
  taken w = (L.new_reference t w.vm).1

  taken-slots : (w : World L K) → IsCall w → L.slots (taken w) t ≡ integer conv ∷ rest
  taken-slots w e = lua.new_reference-slots t w.vm (integer conv ∷ rest) f e

  -- The addresses of the new blocks.
  abbrev block : World L K → Ptr
  block w = (alloc w.callbacks (fresh_callback t w)).0

  abbrev address : K.Ctl → World L K → Ptr
  address k w = (alloc w.kcps (bare k (block w))).0

  abbrev allocated : World L K → World L K
  allocated w = record w { vm = taken w; callbacks = (alloc w.callbacks (fresh_callback t w)).1 }

  abbrev connected : K.Ctl → World L K → World L K
  connected k w = record (added (fresh_callback t w) k w) {
    vm = L.push t (kcp (some (address k w))) (taken w);
  }

  -- Up to the call of `ikcp_create`.
  lkcp_create-start :
      (w : World L K)
      → IsCall w
      → lkcp_create t w ≡ and_then (create (u32 conv) (block w) (allocated w)) (created t (block w))
  unfolding lkcp_create alloc_callback
  lkcp_create-start w e = rw (
    new_reference-ok t w (integer conv) (rest ++ f ∷ []) e,
    check_integer-ok lua t 1 conv (record w { vm = taken w }) (rw (taken-slots w e)),
    u32-int32 conv,
  )

  lkcp_create-eq :
      (k : K.Ctl) (w : World L K)
      → IsCall w
      → K.create (u32 conv) ≡ some k
      → lkcp_create t w ≡ ok 1 (connected k w)
  unfolding added
  lkcp_create-eq k w e made =
      lkcp_create-start w e
      ∙ rw (create-ok (u32 conv) (block w) k (allocated w) made) (
          created-some t (block w) (address k w) (bare k (block w))
            (record (allocated w) { kcps = (alloc w.kcps (bare k (block w))).1 })
            (load-alloc w.kcps (bare k (block w)))
          ∙ rw
              (write-alloc w.kcps (bare k (block w)) (record (bare k (block w)) { output = true })))

  -- A call `lkcp_create(conv, …, f)` that succeeds returns one value, the userdata of a new
  -- connection. The invariant holds again, and every older connection is as it was.
  pub lkcp_create-Open :
      (k : K.Ctl) (w : World L K)
      → IsCall w
      → Sound w
      → K.create (u32 conv) ≡ some k
      → (p : Ptr) × (c : Ptr) × (w' : World L K) × (lkcp_create t w ≡ ok 1 w')
        × Open p c w'
        × (load w.kcps p ≡ none)
        × (L.slots w'.vm t ≡ (integer conv ∷ rest) ++ kcp (some p) ∷ [])
        × ((q : Ptr) (b : Kcb K.Ctl) → load w.kcps q ≡ some b → load w'.kcps q ≡ some b)
  unfolding added
  lkcp_create-Open k w e s made = (
    address k w,
    block w,
    connected k w,
    lkcp_create-eq k w e made,
    record {
      sound =
          Sound-on_vm (added (fresh_callback t w) k w) _ (added-Sound (fresh_callback t w) k w s);
      b = record (bare k (block w)) { output = true };
      held = load-alloc_at w.kcps (bare k (block w)) (record (bare k (block w)) { output = true });
      user = refl;
    },
    load-fresh w.kcps (bare k (block w)),
    lua.slots-push t _ (taken w)
        ∙ ap (λ (xs : List Value). xs ++ kcp (some (address k w)) ∷ []) (taken-slots w e),
    λ q b r. load-alloc_old w.kcps _ q r,
  )

  -- A call whose connection cannot be made returns nil and a message, and frees its block again.
  -- The reference to the output function stays, although nothing refers to it any more.
  pub lkcp_create-null :
      (w : World L K)
      → IsCall w
      → Sound w
      → f ≢ nil
      → K.create (u32 conv) ≡ none
      → (r : ℤ) × (w' : World L K) × (lkcp_create t w ≡ ok 2 w')
        × Sound w'
        × (L.slots w'.vm t
            ≡ (integer conv ∷ rest) ++ nil ∷ string (text "error: fail to create kcp") ∷ [])
        × (L.references w'.vm ≡ (r, f) ∷ L.references w.vm)
        × (live w'.callbacks ≡ live w.callbacks)
        × (live w'.kcps ≡ live w.kcps)
  unfolding dropped_block
  lkcp_create-null w e s not_nil made =
      let (n, is, refs, new) =
        lua.new_reference-references t w.vm (integer conv ∷ rest) f e not_nil in
      (
        pos (suc n),
        record (dropped_block (fresh_callback t w) w) {
          vm = L.push t (string (text "error: fail to create kcp")) (L.push t nil (taken w));
        },
        lkcp_create-start w e
            ∙ rw (create-null (u32 conv) (block w) (allocated w) made) (
                created-none t (block w) (fresh_callback t w) (allocated w)
                  (load-alloc w.callbacks (fresh_callback t w))),
        Sound-on_vm (dropped_block (fresh_callback t w) w) _
            (dropped_block-Sound (fresh_callback t w) w s),
        simp (lua.slots-push, taken-slots w e, append_assoc),
        lua.references-push t _ _ ∙ lua.references-push t nil (taken w) ∙ refs,
        omega (
          arith,
          live-alloc w.callbacks (fresh_callback t w),
          live-free (alloc w.callbacks (fresh_callback t w)).1 (block w)
              (load-alloc w.callbacks (fresh_callback t w)),
        ),
        refl,
      )
