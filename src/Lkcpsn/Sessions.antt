-- ===== src/Lkcpsn/Sessions.antt =====
-- lua-kcp/lkcpsn.c seen from outside: a table of sessions, in which the callback blocks, the address
-- blocks and their places in the heap are forgotten.
pub mod Steps
pub mod Spec
pub mod Create
use lua_kcp_skynet.Prelude.{
  ℕ, Option, none, some, ◌≡◌, ◌≢◌, inl, inr, refl, sym, ap, ◌∙◌, Option-cases,
}
use lua_kcp_skynet.Heap.{Ptr, load}
use lua_kcp_skynet.Api.Lua.{LuaApi}
use lua_kcp_skynet.Api.Kcp.{KcpApi}
use lua_kcp_skynet.Machine.{Kcb}
use lua_kcp_skynet.Addresses.{Callback, Block, World}
use lua_kcp_skynet.Lkcpsn.Sound.{Owned, Sound}

-- What a connection is for its user: the protocol's state and the peer's address.
pub record Session (K : KcpApi) : Type 0 where
  pub ctl : K.Ctl
  pub address : Block

-- A table from the names of the connections to their sessions.
abbrev pub Table : KcpApi → Type 0
Table K = Ptr → Option (Session K)

infixl 5 ◌>>=◌
abbrev ◌>>=◌ : {A B : Type 0} → Option A → (A → Option B) → Option B
none >>= f = none
some a >>= f = f a

module _ {L : LuaApi} {K : KcpApi} where
  -- The session of a connection, found as the code finds it: by `user` and `address`.
  unfoldable pub session : World L K → Table K
  session w p = do
    b ← load w.kcps p
    c ← b.user
    cb ← load w.callbacks c
    a ← cb.address
    block ← load w.statics.addresses a
    some (record { ctl = b.ctl; address = block })

  pub session-owned :
      (w : World L K) (p : Ptr) (b : Kcb K.Ctl)
      → load w.kcps p ≡ some b
      → (o : Owned w b) → session w p ≡ some (record { ctl = b.ctl; address = o.block })
  unfolding session
  session-owned w p b held o = rw (held, o.user, o.callback, o.address, o.content) refl

  pub session-none : (w : World L K) (p : Ptr) → load w.kcps p ≡ none → session w p ≡ none
  unfolding session
  session-none w p e = rw e refl

  -- A connection whose three blocks are as they were has the same session.
  pub session-kept :
      (w w' : World L K) (s : Sound w) (q : Ptr)
      → load w'.kcps q ≡ load w.kcps q
      → ((b : Kcb K.Ctl) (held : load w.kcps q ≡ some b)
          → (load w'.callbacks (s.owner q b held).c ≡ some ((s.owner q b held).cb))
            × (load w'.statics.addresses (s.owner q b held).a ≡ some ((s.owner q b held).block)))
      → session w' q ≡ session w q
  session-kept w w' s q same kept = elim (Option-cases (load w.kcps q)) [
    | inl e ↦ session-none w' q (same ∙ e) ∙ sym (session-none w q e)
    | inr (b, held) ↦
        let o = s.owner q b held in
        let (callback, content) = kept b held in
        session-owned w' q b (same ∙ held) (record {
          c = o.c;
          cb = o.cb;
          a = o.a;
          block = o.block;
          thread = o.thread;
          user = o.user;
          output = o.output;
          callback = callback;
          on_thread = o.on_thread;
          address = o.address;
          content = content;
          size = o.size;
        })
        ∙ sym (session-owned w q b held o)
  ]

  -- The same heaps, the same sessions.
  pub session-same :
      (w w' : World L K) (q : Ptr)
      → w'.kcps ≡ w.kcps
      → w'.callbacks ≡ w.callbacks
      → w'.statics.addresses ≡ w.statics.addresses
      → session w' q ≡ session w q
  unfolding session
  session-same w w' q kcps callbacks addresses = rw (kcps, callbacks, addresses) refl
