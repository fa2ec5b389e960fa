-- ===== src/Lkcp.antt =====
-- lua-kcp/lkcp.c: the binding for clients. A connection is a block of the KCP library, a
-- `struct Callback` that its `user` field points to, and a reference to the Lua output function.
pub mod Safety
pub mod Receive
pub mod Output
pub mod Open
use lua_kcp_skynet.Prelude.{
  ℕ, ◌*◌, ◌&&◌, Bool, true, false, Option, none, some, length, ltb, if◌then◌else◌,
}
use lua_kcp_skynet.Prelude.Int.{ℤ, pos, leb_ℤ}
use lua_kcp_skynet.Prelude.Word.{u32, u64, int32, int_of_u64, int64_of_u64}
use lua_kcp_skynet.Heap.{Ptr}
use lua_kcp_skynet.Outcome.{Cmd, pure, ◌>>=◌, ◌>>◌}
use lua_kcp_skynet.Api.Lua.{Bytes, nil, integer, string, kcp, kcp_lua_recv_buffer, LuaApi}
use lua_kcp_skynet.Api.Kcp.{KcpApi}
use lua_kcp_skynet.Machine.{
  text, Kcb, Machine, push, pop, get_field, check_kcp, check_integer, check_string, check_buf,
  new_reference, drop_reference, raw_get, is_function, call, load_kcp, store_kcp, load_callback,
  store_callback, alloc_callback, free_callback, create, release, user_of, lock_on, lock_off,
  on_ctl, push_front, recv_into, start, guarded,
}

abbrev pub recv_buffer_len : ℕ
recv_buffer_len = 4 * 1024 * 1024

-- `l` and `el` are threads, `none` for NULL.
pub record Callback : Type 0 where
  pub handle : ℕ
  pub l : Option ℕ
  pub el : Option ℕ

-- The calls through the table `lkcp_methods`.
pub data Method : Type 0 where
  recv send update check input flush wndsize nodelay : Method

abbrev pub World : LuaApi → KcpApi → Type 0
World L K = Machine L K Callback (Unit {0})

module _ {L : LuaApi} {K : KcpApi} where
  -- if(lua_isfunction(L, -1)) …
  unfoldable pub call_output : ℕ → Bytes → Bool → Cmd (World L K) ℤ
  call_output l buf true = do push l (string buf); call l; pure (pos 0)
  call_output l buf false = pure (pos 0)

  -- if (handle > 0 && L) …
  unfoldable pub output_on : Option ℕ → ℕ → Bytes → Bool → Cmd (World L K) ℤ
  output_on none handle buf has_handle = pure (pos 0)
  output_on (some l) handle buf false = pure (pos 0)
  output_on (some l) handle buf true = do
    raw_get l (int64_of_u64 handle)
    is ← is_function l
    call_output l buf is

  unfoldable pub kcp_output_callback : Bytes → Ptr → Ptr → Cmd (World L K) ℤ
  kcp_output_callback buf p arg = do
    c ← load_callback arg
    output_on c.el c.handle buf (ltb 0 c.handle)

  -- if(c->handle > 0) …
  unfoldable pub unref : Callback → Ptr → Bool → Cmd (World L K) (Unit {0})
  unref cb c true = do
    drop_reference cb.l (int_of_u64 cb.handle)
    store_callback c (record cb { handle = 0 })
  unref cb c false = pure tt

  -- The rest of the block, once the reference is dropped.
  unfoldable pub clear_block : Ptr → Ptr → Cmd (World L K) (Unit {0})
  clear_block p c = do
    cb ← load_callback c
    store_callback c (record cb { l = none; el = none })
    free_callback c
    b ← load_kcp p
    store_kcp p (record b { user = none })

  unfoldable pub free_user : Ptr → Option Ptr → Cmd (World L K) (Unit {0})
  free_user p none = pure tt
  free_user p (some c) = do cb ← load_callback c; unref cb c (ltb 0 cb.handle); clear_block p c

  unfoldable pub gc_block : Option Ptr → Cmd (World L K) ℕ
  gc_block none = do lock_off; pure 0
  gc_block (some p) = do b ← load_kcp p; free_user p b.user; release p; lock_off; pure 0

  unfoldable pub kcp_gc : ℕ → Cmd (World L K) ℕ
  kcp_gc t = do lock_on; p ← check_kcp t 1; gc_block p

  unfoldable pub created : ℕ → Ptr → Option Ptr → Cmd (World L K) ℕ
  created t c none = do
    free_callback c
    push t nil
    push t (string (text "error: fail to create kcp"))
    lock_off
    pure 2
  created t c (some p) = do
    b ← load_kcp p
    store_kcp p (record b { output = true })
    push t (kcp (some p))
    lock_off
    pure 1

  unfoldable pub lkcp_create : ℕ → Cmd (World L K) ℕ
  lkcp_create t = do
    lock_on
    handle ← new_reference t
    conv ← check_integer t 1
    c ← alloc_callback (record { handle = u64 handle; l = some t; el = some t })
    p ← create (u32 (int32 conv)) c
    created t c p

  -- if (hr <= 0) …
  unfoldable pub received : ℕ → ℤ → Bool → Cmd (World L K) ℕ
  received t hr true = do push t (integer hr); lock_off; pure 1
  received t hr false = do push t (integer hr); push_front t hr; lock_off; pure 2

  unfoldable pub lkcp_recv : ℕ → Cmd (World L K) ℕ
  lkcp_recv t = guarded t λ p. do
    get_field t kcp_lua_recv_buffer
    check_buf t
    pop t
    hr ← recv_into p recv_buffer_len
    received t hr (leb_ℤ hr (pos 0))

  unfoldable pub lkcp_send : ℕ → Cmd (World L K) ℕ
  lkcp_send t = guarded t λ p. do
    s ← check_string t 2
    hr ← on_ctl p (λ k. K.send k s (int32 (pos (length s))))
    push t (integer hr)
    lock_off
    pure 1

  -- c->eL = L
  unfoldable pub run_on : ℕ → Ptr → Cmd (World L K) (Unit {0})
  run_on t c = do cb ← load_callback c; store_callback c (record cb { el = some t })

  unfoldable pub lkcp_update : ℕ → Cmd (World L K) ℕ
  lkcp_update t = guarded t λ p. do
    current ← check_integer t 2
    c ← user_of p
    run_on t c
    start kcp_output_callback p (λ k. K.update k (u32 (int32 current)))
    lock_off
    pure 0

  unfoldable pub lkcp_check : ℕ → Cmd (World L K) ℕ
  lkcp_check t = guarded t λ p. do
    current ← check_integer t 2
    hr ← on_ctl p (λ k. (K.check k (u32 (int32 current)), k))
    push t (integer (int32 (pos hr)))
    lock_off
    pure 1

  unfoldable pub lkcp_input : ℕ → Cmd (World L K) ℕ
  lkcp_input t = guarded t λ p. do
    s ← check_string t 2
    hr ← on_ctl p (λ k. K.input k s (pos (length s)))
    push t (integer hr)
    lock_off
    pure 1

  unfoldable pub lkcp_flush : ℕ → Cmd (World L K) ℕ
  lkcp_flush t =
      guarded t
        λ p. do c ← user_of p; run_on t c; start kcp_output_callback p K.flush; lock_off; pure 0

  unfoldable pub lkcp_wndsize : ℕ → Cmd (World L K) ℕ
  lkcp_wndsize t = guarded t λ p. do
    sndwnd ← check_integer t 2
    rcvwnd ← check_integer t 3
    on_ctl p (λ k. (tt, K.wndsize k (int32 sndwnd) (int32 rcvwnd)))
    lock_off
    pure 0

  unfoldable pub lkcp_nodelay : ℕ → Cmd (World L K) ℕ
  lkcp_nodelay t = guarded t λ p. do
    no_delay ← check_integer t 2
    interval ← check_integer t 3
    resend ← check_integer t 4
    nc ← check_integer t 5
    hr ← on_ctl p (λ k. K.nodelay k (int32 no_delay) (int32 interval) (int32 resend) (int32 nc))
    push t (integer hr)
    lock_off
    pure 1

  unfoldable pub lkcp_methods : Method → ℕ → Cmd (World L K) ℕ
  lkcp_methods recv = lkcp_recv
  lkcp_methods send = lkcp_send
  lkcp_methods update = lkcp_update
  lkcp_methods check = lkcp_check
  lkcp_methods input = lkcp_input
  lkcp_methods flush = lkcp_flush
  lkcp_methods wndsize = lkcp_wndsize
  lkcp_methods nodelay = lkcp_nodelay
