-- ===== src/Lkcpsn/Collect.antt =====
-- A connection that is collected, and a creation that failed: the invariant of the three heaps after
-- them.
use lua_kcp_skynet.Prelude.{some, ◌≡◌, ◌≢◌, sym, ◌∙◌, arith}
use lua_kcp_skynet.Heap.{Ptr, load, alloc, free}
use lua_kcp_skynet.Heap.Laws.{
  load-alloc, load-alloc_old, live-alloc, live-free, load-free-alloc, load-free_cases, load-free_ne,
}
use lua_kcp_skynet.Api.Lua.{LuaApi}
use lua_kcp_skynet.Api.Kcp.{KcpApi}
use lua_kcp_skynet.Machine.{Kcb}
use lua_kcp_skynet.Addresses.{Callback, Block, World}
use lua_kcp_skynet.Lkcpsn.Sound.{Owned, Sound, owners-apart}

module _ {L : LuaApi} {K : KcpApi} (w : World L K) (s : Sound w) where
  module _ (cb : Callback) (block : Block) where
    -- The callback block is freed again, and the address block stays behind.
    abbrev pub left_over : World L K
    left_over = record w {
      callbacks = free (alloc w.callbacks cb).1 (alloc w.callbacks cb).0;
      statics = record (w.statics) { addresses = (alloc w.statics.addresses block).1 };
    }

    pub left_over-Sound : Sound left_over
    left_over-Sound = record {
      owner = λ q y r.
          let o = s.owner q y r in
          record {
            c = o.c;
            cb = o.cb;
            a = o.a;
            block = o.block;
            thread = o.thread;
            user = o.user;
            output = o.output;
            callback = load-free-alloc w.callbacks cb o.c ∙ o.callback;
            on_thread = o.on_thread;
            address = o.address;
            content = load-alloc_old w.statics.addresses block o.a o.content;
            size = o.size;
          };
      unique = s.unique;
      apart = λ p q c d a x y z z' r r' u u' l l' e e'.
          s.apart p q c d a x y z z' r r' u u' (sym (load-free-alloc w.callbacks cb c) ∙ l)
            (sym (load-free-alloc w.callbacks cb d) ∙ l') e e';
      paired = omega (
        arith,
        s.paired,
        live-alloc w.callbacks cb,
        live-free (alloc w.callbacks cb).1 (alloc w.callbacks cb).0 (load-alloc w.callbacks cb),
      );
      sized = s.sized;
    }

  module _ (p : Ptr) (b : Kcb K.Ctl) (held : load w.kcps p ≡ some b) where
    abbrev o : Owned w b
    o = s.owner p b held

    abbrev pub without : World L K
    without = record w {
      kcps = free w.kcps p;
      callbacks = free w.callbacks o.c;
      statics = record (w.statics) { addresses = free w.statics.addresses o.a };
    }

    other_owner : (q : Ptr) (y : Kcb K.Ctl) → p ≢ q → load w.kcps q ≡ some y → Owned without y
    other_owner q y differ old =
        let x = s.owner q y old in
        let (other_c, other_a) = owners-apart w s p q b y held old differ in
        record {
          c = x.c;
          cb = x.cb;
          a = x.a;
          block = x.block;
          thread = x.thread;
          user = x.user;
          output = x.output;
          callback = load-free_ne w.callbacks o.c x.c other_c ∙ x.callback;
          on_thread = x.on_thread;
          address = x.address;
          content = load-free_ne w.statics.addresses o.a x.a other_a ∙ x.content;
          size = x.size;
        }

    pub without-Sound : Sound without
    without-Sound = record {
      owner =
          λ q y r. let (differ, old) = load-free_cases w.kcps p q y r in other_owner q y differ old;
      unique = λ q q' c x y r r' u u'.
          s.unique q q' c x y (load-free_cases w.kcps p q x r).1
            (load-free_cases w.kcps p q' y r').1 u u';
      apart = λ q q' c d a x y z z' r r' u u' l l' e e'.
          s.apart q q' c d a x y z z' (load-free_cases w.kcps p q x r).1
            (load-free_cases w.kcps p q' y r').1 u u' (load-free_cases w.callbacks o.c c z l).1
            (load-free_cases w.callbacks o.c d z' l').1 e e';
      paired =
          omega (arith, s.paired, live-free w.kcps p held, live-free w.callbacks o.c o.callback);
      sized = s.sized;
    }
