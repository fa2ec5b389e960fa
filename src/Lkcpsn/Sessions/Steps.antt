-- ===== src/Lkcpsn/Sessions/Steps.antt =====
-- What a call can do to the table of sessions.
use lua_kcp_skynet.Prelude.{
  same, ℕ, ◌+◌, length, ◌∷◌, none, some, ◌≡◌, ◌≢◌, ◌⊎◌, refl, sym, ap, ◌∙◌,
}
use lua_kcp_skynet.Prelude.Int.{ℤ}
use lua_kcp_skynet.Prelude.Word.{u32, int32}
use lua_kcp_skynet.Heap.{Ptr, load, alloc}
use lua_kcp_skynet.Heap.Laws.{
  load-alloc, load-alloc_old, load-alloc_cases, load-fresh, load-free-alloc, load-free_self,
  load-free_ne,
}
use lua_kcp_skynet.Api.Lua.{Bytes, kcp, LuaApi}
use lua_kcp_skynet.Api.Kcp.{KcpApi}
use lua_kcp_skynet.Machine.{Kcb, slot, in_slot}
use lua_kcp_skynet.Addresses.{Callback, Block, World}
use lua_kcp_skynet.Addresses.Fill.{c_string}
use lua_kcp_skynet.Lkcpsn.Sound.{Sound, owners-apart}
use lua_kcp_skynet.Lkcpsn.Blocks.{added, new_kcp}
use lua_kcp_skynet.Lkcpsn.Collect.{left_over, without}
use lua_kcp_skynet.Lkcpsn.Isolation.{Confined}
use lua_kcp_skynet.Lkcpsn.Sessions.{
  Session, Table, session, session-owned, session-none, session-kept,
}

-- There is one session more: a new one of that number and address, with the protocol's state that the
-- library made for the number.
pub record Fresh {K : KcpApi} (conv : ℕ) (address : Bytes) (T T' : Table K) : Type 0 where
  pub p : Ptr
  pub ctl : K.Ctl
  pub made : K.create conv ≡ some ctl
  pub is_new : T p ≡ none
  pub new : T' p ≡ some (record { ctl = ctl; address = c_string address })
  pub others : (q : Ptr) → p ≢ q → T' q ≡ T q

module _ {K : KcpApi} (p : Ptr) (T T' : Table K) where
  -- The session p has another state of the protocol; its address is the old one, or a string that is
  -- not empty.
  pub record Changed : Type 0 where
    pub old : Session K
    pub new : Session K
    pub was : T p ≡ some old
    pub is : T' p ≡ some new
    pub address :
        (new.address ≡ old.address) ⊎ ((n : ℕ) × (ns : Bytes) × (new.address ≡ c_string (n ∷ ns)))
    pub others : (q : Ptr) → p ≢ q → T' q ≡ T q

  -- The session p is gone.
  pub record Gone : Type 0 where
    pub old : Session K
    pub was : T p ≡ some old
    pub is : T' p ≡ none
    pub others : (q : Ptr) → p ≢ q → T' q ≡ T q

module _ {L : LuaApi} {K : KcpApi} (t : ℕ) (w : World L K) where
  -- There is one session more, with the number in the third slot and the address in the second one.
  pub record Added (T T' : Table K) : Type 0 where
    pub conv : ℤ
    pub address : Bytes
    pub vm : L.Vm
    pub second_slot : L.check_string t 2 w.vm ≡ some (address, vm)
    pub third_slot : in_slot L.to_integer (slot t 3 (record w { vm = vm })) ≡ some conv
    pub fresh : Fresh (u32 (int32 conv)) address T T'

  -- The session in the first slot has changed.
  abbrev pub Updated : Table K → Table K → Type 0
  Updated T T' = (p : Ptr) × (slot t 1 w ≡ some (kcp (some p))) × Changed p T T'

  -- The session in the first slot is gone.
  abbrev pub Removed : Table K → Table K → Type 0
  Removed T T' = (p : Ptr) × (slot t 1 w ≡ some (kcp (some p))) × Gone p T T'

abbrev pub Unchanged : {K : KcpApi} → Table K → Table K → Type 0
Unchanged T T' = (q : Ptr) → T' q ≡ T q

module _ {L : LuaApi} {K : KcpApi} (w : World L K) (s : Sound w) where
  pub left_over-session :
      (cb : Callback) (block : Block) → Unchanged (session w) (session (left_over w s cb block))
  left_over-session cb block q = session-kept w (left_over w s cb block) s q refl (λ b held.
      let o = s.owner q b held in
      (
        load-free-alloc w.callbacks cb o.c ∙ o.callback,
        load-alloc_old w.statics.addresses block o.a o.content,
      ))

  -- Every other connection's blocks are none of those of p.
  pub without-session :
      (p : Ptr) (b : Kcb K.Ctl) (held : load w.kcps p ≡ some b)
      → (q : Ptr) → p ≢ q
      → session (without w s p b held) q ≡ session w q
  without-session p b held q differ =
      let o = s.owner p b held in
      session-kept w (without w s p b held) s q (load-free_ne w.kcps p q differ) (λ y old.
        let x = s.owner q y old in
        let (other_c, other_a) = owners-apart w s p q b y held old differ in
        (
          load-free_ne w.callbacks o.c x.c other_c ∙ x.callback,
          load-free_ne w.statics.addresses o.a x.a other_a ∙ x.content,
        ))

  pub without-Removed :
      (t : ℕ) (p : Ptr) (b : Kcb K.Ctl) (held : load w.kcps p ≡ some b)
      → slot t 1 w ≡ some (kcp (some p))
      → Removed t w (session w) (session (without w s p b held))
  without-Removed t p b held self = (
    p,
    self,
    record {
      old = record { ctl = b.ctl; address = (s.owner p b held).block };
      was = session-owned w p b held (s.owner p b held);
      is = session-none (without w s p b held) p (load-free_self w.kcps p);
      others = without-session p b held;
    },
  )

  module _ (k : K.Ctl) (block : Block) (cb : Callback) (thread : ℕ)
      (on_thread : cb.el ≡ some thread)
      (address : cb.address ≡ some (alloc w.statics.addresses block).0)
      (size : length block ≡ cb.addresssz + 1) where
    abbrev at : Ptr
    at = (alloc w.kcps (new_kcp w s k block cb thread on_thread address size)).0

    abbrev more : World L K
    more = added w s k block cb thread on_thread address size

    added-session_new : session more at ≡ some (record { ctl = k; address = block })
    unfolding session
    added-session_new =
        rw
          (
            load-alloc w.kcps (new_kcp w s k block cb thread on_thread address size),
            load-alloc w.callbacks cb,
            address,
            load-alloc w.statics.addresses block,
          )
          refl

    added-session_old : (q : Ptr) → at ≢ q → session more q ≡ session w q
    added-session_old q differ =
        session-kept w more s q
          (load-alloc_cases w.kcps (new_kcp w s k block cb thread on_thread address size) q
            (λ e. differ (sym e)))
          (λ b held.
            let o = s.owner q b held in
            (
              load-alloc_old w.callbacks cb o.c o.callback,
              load-alloc_old w.statics.addresses block o.a o.content,
            ))

    pub added-Fresh :
        (conv : ℕ) (bytes : Bytes)
        → K.create conv ≡ some k
        → block ≡ c_string bytes
        → Fresh conv bytes (session w) (session more)
    added-Fresh conv bytes made is = record {
      p = at;
      ctl = k;
      made = made;
      is_new =
          session-none w at
            (load-fresh w.kcps (new_kcp w s k block cb thread on_thread address size));
      new = added-session_new ∙ ap (λ (x : Block). some (record { ctl = k; address = x })) is;
      others = added-session_old;
    }

  -- A method that touches only its own connection updates its session.
  pub Confined-Updated :
      (f t p : ℕ) (b : Kcb K.Ctl) (held : load w.kcps p ≡ some b) (w' : World L K)
      → slot t 1 w ≡ some (kcp (some p))
      → Confined f p (s.owner p b held).c (s.owner p b held).a (s.owner p b held).block w w'
      → Updated t w (session w) (session w')
  Confined-Updated f t p b held w' self i =
      let o = s.owner p b held in
      let b' = i.whole.open_pc.b in
      let held' = i.whole.open_pc.held in
      let o' = i.whole.open_pc.sound.owner p b' held' in
      let at_c : o'.c ≡ o.c = same (sym o'.user ∙ i.whole.open_pc.user) in
      (
        p,
        self,
        record {
          old = record { ctl = b.ctl; address = o.block };
          new = record { ctl = b'.ctl; address = o'.block };
          was = session-owned w p b held o;
          is = session-owned w' p b' held' o';
          address =
              i.own_address o'.cb o'.a o'.block (ap (load w'.callbacks) (sym at_c) ∙ o'.callback)
                o'.address o'.content;
          others = λ q differ. session-kept w w' s q (i.kcps q differ) (λ y old.
              let x = s.owner q y old in
              let (other_c, other_a) = owners-apart w s p q b y held old differ in
              (i.callbacks x.c other_c ∙ x.callback, i.blocks x.a x.block other_a x.content));
        },
      )
