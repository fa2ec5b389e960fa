-- ===== src/Lkcpsn/Serves.antt =====
-- Memory safety of the methods of lkcpsn.c, for any invariant that their steps keep.
use lua_kcp_skynet.Sender.{
  Packing, send_datagram, check_sent, output_through, output_to, kcp_output_callback,
}
use lua_kcp_skynet.Prelude.{
  [], ℕ, List, ◌∷◌, Option, none, some, true, false, Bool, ◌≡◌, ◌∙◌, zero, suc,
}
use lua_kcp_skynet.Prelude.Int.{ℤ, pos, negsuc, leb_ℤ}
use lua_kcp_skynet.Heap.{Ptr}
use lua_kcp_skynet.Outcome.{◌>>=◌}
use lua_kcp_skynet.Outcome.Rules.{Ends, raises, Keeps, Keeps-pure, Keeps-raise, ◌⨾◌}
use lua_kcp_skynet.Api.Lua.{Bytes, Value, integer, string, function, kcp, skynet_context, LuaApi}
use lua_kcp_skynet.Api.Lua
use lua_kcp_skynet.Api.Kcp.{KcpApi}
use lua_kcp_skynet.Api.Kcp
use lua_kcp_skynet.Machine.{slot, load_callback, load_kcp, pop, get_field}
use lua_kcp_skynet.Machine.Rules.{
  Frame, Connected, push-Keeps, pop-Keeps, get_field-Keeps, check_integer-Keeps, check_buf-Keeps,
  check_string-Keeps, push_front-Keeps, user_of-bind, on_ctl-Keeps, start-Keeps, recv_into-bind,
  guarded-Ends,
}
use lua_kcp_skynet.Addresses.{Datagram, World, set_address}
use lua_kcp_skynet.Lkcpsn.{
  recv_buffer_len, Method, recv, send, update, check, input, flush, wndsize, nodelay, run_on,
  received, lkcp_recv, lkcp_send, lkcp_update, lkcp_check, lkcp_input, lkcp_flush, lkcp_wndsize,
  lkcp_nodelay, lkcp_methods,
}
use lua_kcp_skynet.Lkcpsn.Output.{called, pack_packet-ok, popped-slots}
use lua_kcp_skynet.Lkcpsn.Live.{Live}

-- An invariant under which p is a live connection and which the steps of the methods keep.
module _ {L : LuaApi} {K : KcpApi} (f : ℕ) (p c : Ptr) where
  pub record Serves (I : World L K → Type 0) : Type 0 where
    pub view : (w : World L K) → I w → Live f p c w
    pub frame : Frame I p
    pub keep_address : (bytes : Bytes) → Keeps I (set_address p bytes)
    pub keep_thread : (t : ℕ) → Keeps I (run_on t c)
    pub after_packet :
        (w : World L K) (v m' : L.Vm) (ds : List Datagram)
        → L.references v ≡ L.references w.vm
        → L.slots m' 0 ≡ []
        → L.pack_output m' ≡ function f
        → I w
        → I (record w { vm = v; statics = record (w.statics) { ll = some m'; sent = ds } })

module _ {L : LuaApi} {K : KcpApi} (lua : Lua.IsLawful L) (lawful : Kcp.IsLawful K)
    (udp_sendbuffer : List Datagram → ℤ) (pk : Packing L) (p c : Ptr) (I : World L K → Type 0)
    (serves : Serves pk.f p c I) where
  abbrev F : Frame I p
  F = serves.frame

  up : Connected I p c
  up = record {
    block = λ w i.
        let v = serves.view w i in (v.addressed.b, v.addressed.held, v.addressed.user, v.output);
  }

  I-sized : (w : World L K) → I w → w.buffer.size ≡ recv_buffer_len
  I-sized w i = (serves.view w i).sized

  check_sent-Keeps : (err : ℤ) → Keeps I (check_sent err)
  unfolding check_sent
  check_sent-Keeps (pos zero) = Keeps-pure (pos 0)
  check_sent-Keeps (pos (suc n)) = Keeps-raise _
  check_sent-Keeps (negsuc n) = Keeps-raise _

  -- The datagram of one packet, from the state in which the context is known.
  packet-Ends :
      (ctx : Value) (buf : Bytes) (w : World L K) (i : I w) (v : L.Vm)
      → L.references v ≡ L.references w.vm
      → Ends
          (λ _. I)
          I
          (output_through udp_sendbuffer
            (serves.view w i).thread
            (serves.view w i).a
            buf
            p
            (some ctx)
            (record w { vm = v }))
  unfolding output_through load_kcp pop send_datagram
  packet-Ends ctx buf w i v same =
      let x = serves.view w i in
      let conv = K.conv x.addressed.b.ctl in
      let m' = L.pop 0 (called lua buf w x.m pk.f (pk.result conv buf) x.ll x.empty x.packs conv) in
      let ds : List Datagram =
        record {
          ctx = ctx;
          address = x.addressed.block;
          id = w.statics.svrsock;
          buffer = pk.result conv buf;
        }
        ∷ w.statics.sent in
      rw
        (
          x.addressed.held,
          ◌>>=◌,
          pack_packet-ok lua buf (record w { vm = L.pop x.thread v }) x.m pk.f (pk.result conv buf)
              x.ll x.empty x.packs conv (pk.leaves conv buf),
          ◌>>=◌,
          x.addressed.content,
        )
        ((check_sent-Keeps (udp_sendbuffer ds)).keep _ (
          serves.after_packet w (L.pop x.thread v) m' ds (lua.references-pop x.thread v ∙ same)
            (popped-slots lua buf w x.m pk.f (pk.result conv buf) x.ll x.empty x.packs conv
              (pk.leaves conv buf))
            (lua.pack_output-pop 0 _
              ∙ lua.pack_output-pcall 0 _
              ∙ lua.pack_output-push 0 _ _
              ∙ lua.pack_output-push 0 _ _
              ∙ lua.pack_output-push 0 _ x.m
              ∙ x.packs)
            i))

  through-Ends :
      (ctx : Option Value) (buf : Bytes) (w : World L K) (i : I w) (v : L.Vm)
      → L.references v ≡ L.references w.vm
      → Ends
          (λ _. I)
          I
          (output_through udp_sendbuffer
            (serves.view w i).thread
            (serves.view w i).a
            buf
            p
            ctx
            (record w { vm = v }))
  unfolding output_through
  through-Ends none buf w i v same = raises (F.on_vm w v same i)
  through-Ends (some ctx) buf w i v same = packet-Ends ctx buf w i v same

  callback-Keeps : (buf : Bytes) → Keeps I (kcp_output_callback udp_sendbuffer buf p c)
  unfolding kcp_output_callback output_to load_callback get_field
  callback-Keeps buf = record {
    keep = λ w i.
        let x = serves.view w i in
        rw (x.addressed.callback, ◌>>=◌, x.on_thread, x.addressed.address, ◌>>=◌)
          (through-Ends _ buf w i (L.push x.thread (L.field w.vm skynet_context) w.vm)
            (lua.references-push x.thread _ w.vm));
  }

  received-Keeps :
      (t : ℕ) (hr : ℤ) (b : Bool)
      → leb_ℤ hr (pos recv_buffer_len) ≡ true
      → Keeps I (received t hr b)
  unfolding received
  received-Keeps t hr true fits = push-Keeps lua F t _ ⨾ λ _. Keeps-pure 1
  received-Keeps t hr false fits = push-Keeps lua F t _ ⨾ λ _.
      push_front-Keeps lua F t hr recv_buffer_len I-sized fits ⨾ λ _. Keeps-pure 2

  -- Every method on the connection keeps the invariant, and meets no undefined behaviour.
  pub methods-Ends :
      (m : Method) (t : ℕ) (w : World L K)
      → slot t 1 w ≡ some (kcp (some p))
      → I w
      → Ends (λ _. I) I (lkcp_methods udp_sendbuffer m t w)
  unfolding lkcp_methods lkcp_recv lkcp_send lkcp_update lkcp_check lkcp_input lkcp_flush
      lkcp_wndsize lkcp_nodelay
  methods-Ends recv t w s i = guarded-Ends F up t _ w s i (
      get_field-Keeps lua F t _ ⨾ λ _. check_buf-Keeps lua F t ⨾ λ _. pop-Keeps lua F t ⨾ λ _.
      recv_into-bind F up lawful recv_buffer_len I-sized _ λ hr fits. received-Keeps t hr _ fits)
  methods-Ends send t w s i = guarded-Ends F up t _ w s i (
      check_string-Keeps lua F t 2 ⨾ λ _. on_ctl-Keeps F up _ ⨾ λ _. push-Keeps lua F t _ ⨾ λ _.
      check_string-Keeps lua F t 3 ⨾ λ address. serves.keep_address address ⨾ λ _. Keeps-pure 1)
  methods-Ends update t w s i = guarded-Ends F up t _ w s i (
      check_integer-Keeps lua F t 2 ⨾ λ _. user_of-bind F up _ (
        serves.keep_thread t ⨾ λ _.
        start-Keeps F up (kcp_output_callback udp_sendbuffer) _ callback-Keeps ⨾ λ _. Keeps-pure 0))
  methods-Ends check t w s i = guarded-Ends F up t _ w s i (
      check_integer-Keeps lua F t 2 ⨾ λ _.
      on_ctl-Keeps F up _ ⨾ λ _. push-Keeps lua F t _ ⨾ λ _. Keeps-pure 1)
  methods-Ends input t w s i = guarded-Ends F up t _ w s i (
      check_string-Keeps lua F t 2 ⨾ λ _. on_ctl-Keeps F up _ ⨾ λ _. push-Keeps lua F t _ ⨾ λ _.
      check_string-Keeps lua F t 3 ⨾ λ address. serves.keep_address address ⨾ λ _. Keeps-pure 1)
  methods-Ends flush t w s i = guarded-Ends F up t _ w s i (
      user_of-bind F up _ (
        serves.keep_thread t ⨾ λ _.
        start-Keeps F up (kcp_output_callback udp_sendbuffer) _ callback-Keeps ⨾ λ _. Keeps-pure 0))
  methods-Ends wndsize t w s i = guarded-Ends F up t _ w s i (
      check_integer-Keeps lua F t 2 ⨾ λ _.
      check_integer-Keeps lua F t 3 ⨾ λ _. on_ctl-Keeps F up _ ⨾ λ _. Keeps-pure 0)
  methods-Ends nodelay t w s i = guarded-Ends F up t _ w s i (
      check_integer-Keeps lua F t 2 ⨾ λ _. check_integer-Keeps lua F t 3 ⨾ λ _.
      check_integer-Keeps lua F t 4 ⨾ λ _. check_integer-Keeps lua F t 5 ⨾ λ _.
      on_ctl-Keeps F up _ ⨾ λ _. push-Keeps lua F t _ ⨾ λ _. Keeps-pure 1)
