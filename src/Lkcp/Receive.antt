-- ===== src/Lkcp/Receive.antt =====
-- What `lkcp_recv` hands to Lua.
use mathlib.Core.List.{append_assoc}
use lua_kcp_skynet.Prelude.{
  ◌≤◌, ◌++◌, [], ◌∷◌, true, false, some, ◌≡◌, ◌∙◌, ap, refl, length, arith,
}
use lua_kcp_skynet.Prelude.Int.{ℤ, pos, ltb_ℤ, leb_ℤ}
use lua_kcp_skynet.Heap.{Ptr, load, write}
use lua_kcp_skynet.Heap.Laws.{load-write}
use lua_kcp_skynet.Outcome.{ok}
use lua_kcp_skynet.Api.Lua.{
  Bytes, Value, integer, string, kcp, recv_buffer, kcp_lua_recv_buffer, LuaApi,
}
use lua_kcp_skynet.Api.Lua
use lua_kcp_skynet.Api.Kcp.{KcpApi}
use lua_kcp_skynet.Api.Kcp
use lua_kcp_skynet.Machine.{slot, push, pop, get_field, fill}
use lua_kcp_skynet.Machine.Steps.{guarded-ok, check_buf-ok, recv_into-ok, push_front-ok}
use lua_kcp_skynet.Lkcp.{World, recv_buffer_len, lkcp_recv, received}
use lua_kcp_skynet.Lkcp.Safety.Sound.{Open}

module _ {L : LuaApi} {K : KcpApi} (lua : Lua.IsLawful L) (lawful : Kcp.IsLawful K) (t p c : Ptr)
    (w : World L K) (open_pc : Open p c w) (self : slot t 1 w ≡ some (kcp (some p)))
    (opened : L.field w.vm kcp_lua_recv_buffer ≡ recv_buffer) where
  abbrev asked : ℤ × Bytes × K.Ctl
  asked = K.recv open_pc.b.ctl (pos recv_buffer_len)

  -- The stack after the buffer was looked up and taken off again.
  abbrev looked_up : L.Vm
  looked_up = L.pop t (L.push t (L.field w.vm kcp_lua_recv_buffer) w.vm)

  looked_up-slots : L.slots looked_up t ≡ L.slots w.vm t
  looked_up-slots =
      lua.slots-pop t _ (L.slots w.vm t) (L.field w.vm kcp_lua_recv_buffer)
        (lua.slots-push t _ w.vm)

  abbrev after_receive : World L K
  after_receive = record w {
    vm = looked_up;
    kcps = write w.kcps p (record open_pc.b { ctl = asked.2 });
    buffer = fill w.buffer asked.1;
  }

  fits : length asked.1 ≤ w.buffer.size
  fits = omega (arith, open_pc.sound.sized, lawful.recv-fits open_pc.b.ctl recv_buffer_len)

  lkcp_recv-received : lkcp_recv t w ≡ received t asked.0 (leb_ℤ asked.0 (pos 0)) after_receive
  unfolding lkcp_recv get_field pop
  lkcp_recv-received =
      guarded-ok t p c open_pc.b _ w self open_pc.held open_pc.user
      ∙ rw (
        check_buf-ok t (L.slots w.vm t)
            (record w { vm = L.push t (L.field w.vm kcp_lua_recv_buffer) w.vm })
            (lua.slots-push t _ w.vm ∙ ap (λ (v : Value). L.slots w.vm t ++ v ∷ []) opened),
        recv_into-ok p recv_buffer_len open_pc.b (record w { vm = looked_up }) open_pc.held fits,
      )

  -- When the library has a message, `lkcp_recv` returns its length and exactly its bytes, whatever
  -- earlier messages left in the shared receive buffer.
  pub lkcp_recv_message :
      ltb_ℤ (pos 0) asked.0 ≡ true
      → (w' : World L K) × (lkcp_recv t w ≡ ok 2 w')
        × (L.slots w'.vm t ≡ L.slots w.vm t ++ integer (pos (length asked.1)) ∷ string asked.1 ∷ [])
        × (load w'.kcps p ≡ some (record open_pc.b { ctl = asked.2 }))
  unfolding received push
  lkcp_recv_message some_bytes =
      let count : asked.0 ≡ pos (length asked.1) =
        lawful.recv-counts open_pc.b.ctl recv_buffer_len some_bytes in
      let more : leb_ℤ asked.0 (pos 0) ≡ false = ground arith in
      (
        record after_receive {
          vm = L.push t (string asked.1) (L.push t (integer (pos (length asked.1))) looked_up);
        },
        lkcp_recv-received
            ∙ rw (
              more,
              count,
              push_front-ok t asked.1 w.buffer
                  (record after_receive {
                    vm = L.push t (integer (pos (length asked.1))) looked_up;
                  })
                  refl fits,
            ),
        simp (lua.slots-push, looked_up-slots, append_assoc),
        load-write w.kcps p _ open_pc.b open_pc.held,
      )

  -- When the library has no message, `lkcp_recv` returns the library's code alone.
  pub lkcp_recv_empty :
      leb_ℤ asked.0 (pos 0) ≡ true
      → (w' : World L K) × (lkcp_recv t w ≡ ok 1 w')
        × (L.slots w'.vm t ≡ L.slots w.vm t ++ integer asked.0 ∷ [])
        × (load w'.kcps p ≡ some (record open_pc.b { ctl = asked.2 }))
  unfolding received push
  lkcp_recv_empty none_left = (
    record after_receive { vm = L.push t (integer asked.0) looked_up },
    lkcp_recv-received ∙ rw none_left,
    simp (lua.slots-push, looked_up-slots),
    load-write w.kcps p _ open_pc.b open_pc.held,
  )
