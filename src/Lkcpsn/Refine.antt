-- ===== src/Lkcpsn/Refine.antt =====
-- lkcpsn.c does what its table of sessions promises, through any sequence of calls.
use lua_kcp_skynet.Prelude.{ℕ, List, ◌∷◌, none, some, ◌≡◌, inl, inr, refl, ap, ◌∙◌}
use lua_kcp_skynet.Prelude.Int.{ℤ}
use lua_kcp_skynet.Prelude.Word.{u32, int32}
use lua_kcp_skynet.Heap.{Ptr, load}
use lua_kcp_skynet.Outcome.Rules.{Ends, mono}
use lua_kcp_skynet.Outcome.Trace as Trace
use lua_kcp_skynet.Api.Lua.{Bytes, LuaApi}
use lua_kcp_skynet.Api.Lua
use lua_kcp_skynet.Api.Kcp.{KcpApi}
use lua_kcp_skynet.Api.Kcp
use lua_kcp_skynet.Machine.{Kcb}
use lua_kcp_skynet.Addresses.{Block, Datagram, World}
use lua_kcp_skynet.Addresses.Fill.{c_string}
use lua_kcp_skynet.Sender.{Packing}
use lua_kcp_skynet.Lkcpsn.Running.{Running}
use lua_kcp_skynet.Lkcpsn.Sessions.{session, session-owned, session-none, session-same}
use lua_kcp_skynet.Lkcpsn.Trace.{
  Call, make, invoke, collect, run, Loaded, Allowed, Elsewhere, Reach, Returns, Raises,
  Loaded-Running, Elsewhere-Running, call-Running,
}
use lua_kcp_skynet.Lkcpsn.Sessions.Spec.{
  Step, stay, add, change, remove, Reached, start, later, Reached-Named,
}

module _ {L : LuaApi} {K : KcpApi} where
  Returns-Step :
      (g : Call) (w w' : World L K) → Allowed g w → Returns g w w' → Step (session w) (session w')
  Returns-Step (make t) w w' a (inl x) = stay x
  Returns-Step (make t) w w' a (inr x) =
      add (u32 (int32 x.conv)) x.address (a x.address x.vm x.second_slot) x.fresh
  Returns-Step (invoke m t) w w' a (inl x) = stay x
  Returns-Step (invoke m t) w w' a (inr (p, self, x)) = change p x
  Returns-Step (collect t) w w' a (inl x) = stay x
  Returns-Step (collect t) w w' a (inr (p, self, x)) = remove p x

  Raises-Step :
      (g : Call) (w w' : World L K) → Allowed g w → Raises g w w' → Step (session w) (session w')
  Raises-Step (make t) w w' a x = stay x
  Raises-Step (invoke m t) w w' a x = Returns-Step (invoke m t) w w' a x
  Raises-Step (collect t) w w' a x = stay x

  Loaded-empty : (f : ℕ) (w : World L K) → Loaded f w → (p : Ptr) → session w p ≡ none
  unfolding load
  Loaded-empty f w x p = session-none w p (rw x.no_kcps refl)

  Elsewhere-Step : (w w' : World L K) → Elsewhere w w' → Step (session w) (session w')
  Elsewhere-Step w w' (m, b, size, e) =
      let other : World L K = record w { vm = m; buffer = b } in
      rw e (stay (λ q. session-same w other q refl refl refl))

module _ {L : LuaApi} {K : KcpApi} (lua : Lua.IsLawful L) (lawful : Kcp.IsLawful K)
    (udp_sendbuffer : List Datagram → ℤ) (pk : Packing L) where
  abbrev Good : World L K → Type 0
  Good w = Running pk.f w × Reached (session w)

  call-Good :
      (g : Call) (w : World L K)
      → Allowed g w
      → Good w
      → Ends (λ _. Good) Good (run udp_sendbuffer g w)
  call-Good g w a (i, n) =
      mono (call-Running lua lawful udp_sendbuffer pk g w a i)
        (λ _ w' x. (x.0, later n (Returns-Step g w w' a x.1)))
        (λ w' x. (x.0, later n (Raises-Step g w w' a x.1)))

  Reach-Good : (w : World L K) → Reach udp_sendbuffer pk.f w → Good w
  Reach-Good w =
      Trace.Reach-keeps (run udp_sendbuffer) Allowed (Loaded pk.f) Elsewhere Good
        (λ v x. (Loaded-Running pk.f v x, start (Loaded-empty pk.f v x)))
        (λ v v' x i. (Elsewhere-Running pk.f v v' x i.0, later i.1 (Elsewhere-Step v v' x)))
        call-Good

  -- In every state of a process that has loaded the library and made only allowed calls, however
  -- they ended, every connection has a session: its callback block and its address block are there,
  -- and the address is a string that is not empty, with its NUL. It is assumed that every call of
  -- `pack_output` leaves a string.
  pub Reach-IsText :
      (w : World L K) (p : Ptr) (b : Kcb K.Ctl)
      → Reach udp_sendbuffer pk.f w
      → load w.kcps p ≡ some b
      → (n : ℕ) × (ns : Bytes) × (session w p
          ≡ some (record { ctl = b.ctl; address = c_string (n ∷ ns) }))
  Reach-IsText w p b r held =
      let (i, reached) = Reach-Good w r in
      let o = i.sound.owner p b held in
      let there = session-owned w p b held o in
      let (n, ns, is) = Reached-Named reached p (record { ctl = b.ctl; address = o.block }) there in
      (n, ns, there ∙ ap (λ (x : Block). some (record { ctl = b.ctl; address = x })) is)
