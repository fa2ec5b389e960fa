-- ===== src/Lkcpsn/Running.antt =====
-- The invariant of a process that uses lkcpsn.c, and the states that keep it.
use lua_kcp_skynet.Prelude.{ℕ, ◌≡◌, refl, ◌∙◌}
use lua_kcp_skynet.Api.Lua.{LuaApi}
use lua_kcp_skynet.Api.Kcp.{KcpApi}
use lua_kcp_skynet.Addresses.{World}
use lua_kcp_skynet.Lkcpsn.Sound.{Sound}
use lua_kcp_skynet.Lkcpsn.Whole.{Packs, same_kcps}

module _ {L : LuaApi} {K : KcpApi} where
  -- All connections are sound, and packets can be packed.
  pub record Running (f : ℕ) (w : World L K) : Type 0 where
    pub sound : Sound w
    pub shared : Packs f w

  pub Running-on_vm :
      (f : ℕ) (w : World L K) (m : L.Vm) → Running f w → Running f (record w { vm = m })
  Running-on_vm f w m i = record {
    sound = same_kcps w (record w { vm = m }) i.sound refl refl refl refl;
    shared = record {
      m = i.shared.m;
      ll = i.shared.ll;
      empty = i.shared.empty;
      packs = i.shared.packs;
    };
  }

  -- Another state with the same `LL`.
  pub Running-of :
      (f : ℕ) (w w' : World L K)
      → w'.statics.ll ≡ w.statics.ll
      → Packs f w
      → Sound w'
      → Running f w'
  Running-of f w w' same shared sound = record {
    sound = sound;
    shared = record {
      m = shared.m;
      ll = same ∙ shared.ll;
      empty = shared.empty;
      packs = shared.packs;
    };
  }
