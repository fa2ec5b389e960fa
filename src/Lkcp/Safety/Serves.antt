-- ===== src/Lkcp/Safety/Serves.antt =====
-- What the methods of lkcp.c ask of an invariant, and that they keep it.
use lua_kcp_skynet.Prelude.{ℕ, Option, none, some, ◌≡◌, Bool, true, false}
use lua_kcp_skynet.Prelude.Int.{ℤ, pos, leb_ℤ}
use lua_kcp_skynet.Heap.{Ptr, load}
use lua_kcp_skynet.Outcome.{Cmd, ◌>>=◌}
use lua_kcp_skynet.Outcome.Rules.{Ends, Keeps, Keeps-pure, keeps, ◌⨾◌}
use lua_kcp_skynet.Api.Lua.{Bytes, kcp, LuaApi}
use lua_kcp_skynet.Api.Lua
use lua_kcp_skynet.Api.Kcp.{KcpApi}
use lua_kcp_skynet.Api.Kcp
use lua_kcp_skynet.Machine.{slot, load_callback}
use lua_kcp_skynet.Machine.Rules.{
  Frame, Connected, push-Keeps, pop-Keeps, get_field-Keeps, check_integer-Keeps, check_buf-Keeps,
  check_string-Keeps, raw_get-Keeps, is_function-Keeps, call-Keeps, push_front-Keeps, user_of-bind,
  on_ctl-Keeps, start-Keeps, recv_into-bind, guarded-Ends,
}
use lua_kcp_skynet.Lkcp.{
  call_output, received, Callback, World, recv_buffer_len, output_on, kcp_output_callback, run_on,
  lkcp_recv, lkcp_send, lkcp_update, lkcp_check, lkcp_input, lkcp_flush, lkcp_wndsize, lkcp_nodelay,
  lkcp_methods, Method, recv, send, update, check, input, flush, wndsize, nodelay,
}

module _ {L : LuaApi} {K : KcpApi} {I : World L K → Type 0} (lua : Lua.IsLawful L) {p : Ptr}
    (F : Frame I p) where
  pub call_output-Keeps : (l : ℕ) (buf : Bytes) (is : Bool) → Keeps I (call_output l buf is)
  unfolding call_output
  call_output-Keeps l buf true = search (keeps, push-Keeps lua F, call-Keeps lua F)
  call_output-Keeps l buf false = Keeps-pure _

  pub output_on-Keeps :
      (l : Option ℕ) (handle : ℕ) (buf : Bytes) (has : Bool) → Keeps I (output_on l handle buf has)
  unfolding output_on
  output_on-Keeps none handle buf has = Keeps-pure _
  output_on-Keeps (some l) handle buf false = Keeps-pure _
  output_on-Keeps (some l) handle buf true =
      search (keeps, raw_get-Keeps lua F, is_function-Keeps lua F, call_output-Keeps)

-- An invariant under which p is a live connection with the callback block c, and which the steps of
-- the methods keep.
module _ {L : LuaApi} {K : KcpApi} (p c : Ptr) where
  pub record Serves (I : World L K → Type 0) : Type 0 where
    pub frame : Frame I p
    pub connected : Connected I p c
    pub sized : (w : World L K) → I w → w.buffer.size ≡ recv_buffer_len
    pub callback : (w : World L K) → I w → (cb : Callback) × (load w.callbacks c ≡ some cb)
    pub keep_thread : (t : ℕ) → Keeps I (run_on t c)

module _ {L : LuaApi} {K : KcpApi} (lua : Lua.IsLawful L) (lawful : Kcp.IsLawful K) (p c : Ptr)
    (I : World L K → Type 0) (serves : Serves p c I) where
  abbrev F : Frame I p
  F = serves.frame

  abbrev up : Connected I p c
  up = serves.connected

  abbrev Method-Ends : (ℕ → Cmd (World L K) ℕ) → Type 0
  Method-Ends m =
      (t : ℕ) (w : World L K) → slot t 1 w ≡ some (kcp (some p)) → I w → Ends (λ _. I) I (m t w)

  callback-Keeps : (buf : Bytes) → Keeps I (kcp_output_callback buf p c)
  unfolding kcp_output_callback load_callback
  callback-Keeps buf = record {
    keep = λ w i.
        let (cb, e) = serves.callback w i in
        rw (e, ◌>>=◌) ((output_on-Keeps lua F cb.el cb.handle buf _).keep w i);
  }

  received-Keeps :
      (t : ℕ) (hr : ℤ) (b : Bool)
      → leb_ℤ hr (pos recv_buffer_len) ≡ true
      → Keeps I (received t hr b)
  unfolding received
  received-Keeps t hr true fits = search (keeps, push-Keeps lua F)
  received-Keeps t hr false fits = push-Keeps lua F t _ ⨾ λ _.
      push_front-Keeps lua F t hr recv_buffer_len serves.sized fits ⨾ λ _. Keeps-pure 2

  lkcp_recv-Ends : Method-Ends lkcp_recv
  unfolding lkcp_recv
  lkcp_recv-Ends t w s i = guarded-Ends F up t _ w s i (
      get_field-Keeps lua F t _ ⨾ λ _. check_buf-Keeps lua F t ⨾ λ _. pop-Keeps lua F t ⨾ λ _.
      recv_into-bind F up lawful recv_buffer_len serves.sized _
        λ hr fits. received-Keeps t hr _ fits)

  lkcp_send-Ends : Method-Ends lkcp_send
  unfolding lkcp_send
  lkcp_send-Ends t w s i = guarded-Ends F up t _ w s i (
      check_string-Keeps lua F t 2 ⨾ λ _.
      on_ctl-Keeps F up _ ⨾ λ hr. push-Keeps lua F t _ ⨾ λ _. Keeps-pure 1)

  lkcp_update-Ends : Method-Ends lkcp_update
  unfolding lkcp_update
  lkcp_update-Ends t w s i = guarded-Ends F up t _ w s i (
      check_integer-Keeps lua F t 2 ⨾ λ _. user_of-bind F up _ (
        serves.keep_thread t ⨾ λ _.
        start-Keeps F up kcp_output_callback _ callback-Keeps ⨾ λ _. Keeps-pure 0))

  lkcp_check-Ends : Method-Ends lkcp_check
  unfolding lkcp_check
  lkcp_check-Ends t w s i = guarded-Ends F up t _ w s i (
      check_integer-Keeps lua F t 2 ⨾ λ _.
      on_ctl-Keeps F up _ ⨾ λ _. push-Keeps lua F t _ ⨾ λ _. Keeps-pure 1)

  lkcp_input-Ends : Method-Ends lkcp_input
  unfolding lkcp_input
  lkcp_input-Ends t w s i = guarded-Ends F up t _ w s i (
      check_string-Keeps lua F t 2 ⨾ λ _.
      on_ctl-Keeps F up _ ⨾ λ _. push-Keeps lua F t _ ⨾ λ _. Keeps-pure 1)

  lkcp_flush-Ends : Method-Ends lkcp_flush
  unfolding lkcp_flush
  lkcp_flush-Ends t w s i = guarded-Ends F up t _ w s i (
      user_of-bind F up _ (
        serves.keep_thread t ⨾ λ _.
        start-Keeps F up kcp_output_callback _ callback-Keeps ⨾ λ _. Keeps-pure 0))

  lkcp_wndsize-Ends : Method-Ends lkcp_wndsize
  unfolding lkcp_wndsize
  lkcp_wndsize-Ends t w s i = guarded-Ends F up t _ w s i (
      check_integer-Keeps lua F t 2 ⨾ λ _.
      check_integer-Keeps lua F t 3 ⨾ λ _. on_ctl-Keeps F up _ ⨾ λ _. Keeps-pure 0)

  lkcp_nodelay-Ends : Method-Ends lkcp_nodelay
  unfolding lkcp_nodelay
  lkcp_nodelay-Ends t w s i = guarded-Ends F up t _ w s i (
      check_integer-Keeps lua F t 2 ⨾ λ _. check_integer-Keeps lua F t 3 ⨾ λ _.
      check_integer-Keeps lua F t 4 ⨾ λ _. check_integer-Keeps lua F t 5 ⨾ λ _.
      on_ctl-Keeps F up _ ⨾ λ _. push-Keeps lua F t _ ⨾ λ _. Keeps-pure 1)

  -- Every method on the connection keeps the invariant, and meets no undefined behaviour.
  pub methods-Ends :
      (m : Method) (t : ℕ) (w : World L K)
      → slot t 1 w ≡ some (kcp (some p))
      → I w
      → Ends (λ _. I) I (lkcp_methods m t w)
  unfolding lkcp_methods
  methods-Ends recv = lkcp_recv-Ends
  methods-Ends send = lkcp_send-Ends
  methods-Ends update = lkcp_update-Ends
  methods-Ends check = lkcp_check-Ends
  methods-Ends input = lkcp_input-Ends
  methods-Ends flush = lkcp_flush-Ends
  methods-Ends wndsize = lkcp_wndsize-Ends
  methods-Ends nodelay = lkcp_nodelay-Ends
