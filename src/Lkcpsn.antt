-- ===== src/Lkcpsn.antt =====
-- lua-kcp/lkcpsn.c: the binding for skynet servers. A connection also has a heap block with the
-- address that its packets go to. Packets are packed by a Lua state `LL` that the whole process
-- shares, and sent over a socket that the whole process shares (Sender).
pub mod Peer
pub mod Sound
pub mod Readdress
pub mod Live
pub mod Serves
pub mod Whole
pub mod Blocks
pub mod Collect
pub mod Isolation
pub mod Sessions
pub mod Running
pub mod Calls
pub mod Trace
pub mod Refine
pub mod Safety
pub mod Open
pub mod Gc
pub mod Create
pub mod Output
pub mod Transmit
pub mod Update
use lua_kcp_skynet.Prelude.{
  ℕ, zero, ◌+◌, ◌*◌, ◌-◌, ◌&&◌, Bool, true, false, not, ◌∷◌, List, Option, none, some, length, suc,
  ◌==◌, if◌then◌else◌, get_elem?, replicate,
}
use lua_kcp_skynet.Prelude.Int.{ℤ, pos, negsuc, leb_ℤ}
use lua_kcp_skynet.Prelude.Word.{u32, u64, int32}
use lua_kcp_skynet.Heap.{Ptr, load}
use lua_kcp_skynet.Outcome.{
  Cmd, ok, fault, pure, raise, undefined, defined, address_invalid, ctx_invalid,
  pack_output_invalid, send_failed, ◌>>=◌, ◌>>◌,
}
use lua_kcp_skynet.Api.Lua.{
  Bytes, Value, nil, integer, string, function, kcp, recv_buffer, light, kcp_lua_recv_buffer,
  skynet_context, LuaApi,
}
use lua_kcp_skynet.Api.Kcp.{KcpApi}
use lua_kcp_skynet.Machine.{
  text, slot, push, pop, get_field, check_kcp, check_integer, check_string, check_buf, load_kcp,
  store_kcp, load_callback, store_callback, alloc_callback, free_callback, create, release, user_of,
  lock_on, lock_off, on_ctl, push_front, recv_into, start, guarded,
}
use lua_kcp_skynet.Addresses.{
  Callback, Datagram, World, on_statics, free_address, new_address, set_address, print_address,
}
use lua_kcp_skynet.Sender.{kcp_output_callback}

abbrev pub recv_buffer_len : ℕ
recv_buffer_len = 4 * 1024 * 1024

-- The calls through the table `lkcp_methods`.
pub data Method : Type 0 where
  recv send update check input flush wndsize nodelay : Method

module _ {L : LuaApi} {K : KcpApi} where
  -- c->eL = L
  unfoldable pub run_on : ℕ → Ptr → Cmd (World L K) (Unit {0})
  run_on t c = do cb ← load_callback c; store_callback c (record cb { el = some t })

module _ {L : LuaApi} {K : KcpApi} (udp_sendbuffer : List Datagram → ℤ) where
  unfoldable pub lkcp_update : ℕ → Cmd (World L K) ℕ
  lkcp_update t = guarded t λ p. do
    current ← check_integer t 2
    c ← user_of p
    run_on t c
    start (kcp_output_callback udp_sendbuffer) p (λ k. K.update k (u32 (int32 current)))
    lock_off
    pure 0

  unfoldable pub lkcp_flush : ℕ → Cmd (World L K) ℕ
  lkcp_flush t = guarded t λ p. do
    c ← user_of p
    run_on t c
    start (kcp_output_callback udp_sendbuffer) p K.flush
    lock_off
    pure 0

module _ {L : LuaApi} {K : KcpApi} where
  unfoldable pub free_user : Ptr → Option Ptr → Cmd (World L K) (Unit {0})
  free_user p none = pure tt
  free_user p (some c) = do
    cb ← load_callback c
    store_callback c (record cb { l = none; el = none })
    free_address cb.address
    store_callback c (record cb { l = none; el = none; address = none })
    free_callback c
    b ← load_kcp p
    store_kcp p (record b { user = none })

  unfoldable pub gc_block : Option Ptr → Cmd (World L K) ℕ
  gc_block none = do lock_off; pure 0
  gc_block (some p) = do b ← load_kcp p; free_user p b.user; release p; lock_off; pure 0

  unfoldable pub kcp_gc : ℕ → Cmd (World L K) ℕ
  kcp_gc t = do lock_on; p ← check_kcp t 1; gc_block p

  -- if(sock && !svrsock) …
  unfoldable pub bind_socket : ℕ → Cmd (World L K) (Unit {0})
  bind_socket sock =
      on_statics (λ s. record s {
        svrsock = if not (sock == 0) && (s.svrsock == 0) then sock else s.svrsock;
      })

  unfoldable pub created : ℕ → Ptr → Option Ptr → Cmd (World L K) ℕ
  created t c none = do
    free_callback c
    push t nil
    push t (string (text "error: fail to create kcp"))
    lock_off
    pure 2
  created t c (some p) = do
    b ← load_kcp p
    store_kcp p (record b { output = true })
    push t (kcp (some p))
    cb ← load_callback c
    a ← defined cb.address
    print_address a cb.addresssz
    lock_off
    pure 1

  -- The block of `struct Callback`, the address block, and the connection.
  unfoldable pub connect : ℕ → Bytes → ℕ → Cmd (World L K) ℕ
  connect t address conv = do
    a ← new_address address
    c ← alloc_callback (record {
      handle = 0;
      l = some t;
      el = some t;
      address = some a;
      addresssz = length address;
    })
    p ← create conv c
    created t c p

  unfoldable pub lkcp_create : ℕ → Cmd (World L K) ℕ
  lkcp_create t = do
    lock_on
    sock ← check_integer t 1
    address ← check_string t 2
    conv ← check_integer t 3
    bind_socket (u64 sock)
    connect t address (u32 (int32 conv))

  -- if (hr <= 0) …
  unfoldable pub received : ℕ → ℤ → Bool → Cmd (World L K) ℕ
  received t hr true = do push t (integer hr); lock_off; pure 1
  received t hr false = do push t (integer hr); push_front t hr; lock_off; pure 2

  unfoldable pub lkcp_recv : ℕ → Cmd (World L K) ℕ
  lkcp_recv t = guarded t λ p. do
    get_field t kcp_lua_recv_buffer
    check_buf t
    pop t
    hr ← recv_into p recv_buffer_len
    received t hr (leb_ℤ hr (pos 0))

  unfoldable pub lkcp_send : ℕ → Cmd (World L K) ℕ
  lkcp_send t = guarded t λ p. do
    s ← check_string t 2
    hr ← on_ctl p (λ k. K.send k s (int32 (pos (length s))))
    push t (integer hr)
    address ← check_string t 3
    set_address p address
    lock_off
    pure 1

  unfoldable pub lkcp_check : ℕ → Cmd (World L K) ℕ
  lkcp_check t = guarded t λ p. do
    current ← check_integer t 2
    hr ← on_ctl p (λ k. (K.check k (u32 (int32 current)), k))
    push t (integer (int32 (pos hr)))
    lock_off
    pure 1

  unfoldable pub lkcp_input : ℕ → Cmd (World L K) ℕ
  lkcp_input t = guarded t λ p. do
    s ← check_string t 2
    hr ← on_ctl p (λ k. K.input k s (pos (length s)))
    push t (integer hr)
    address ← check_string t 3
    set_address p address
    lock_off
    pure 1

  unfoldable pub lkcp_wndsize : ℕ → Cmd (World L K) ℕ
  lkcp_wndsize t = guarded t λ p. do
    sndwnd ← check_integer t 2
    rcvwnd ← check_integer t 3
    on_ctl p (λ k. (tt, K.wndsize k (int32 sndwnd) (int32 rcvwnd)))
    lock_off
    pure 0

  unfoldable pub lkcp_nodelay : ℕ → Cmd (World L K) ℕ
  lkcp_nodelay t = guarded t λ p. do
    no_delay ← check_integer t 2
    interval ← check_integer t 3
    resend ← check_integer t 4
    nc ← check_integer t 5
    hr ← on_ctl p (λ k. K.nodelay k (int32 no_delay) (int32 interval) (int32 resend) (int32 nc))
    push t (integer hr)
    lock_off
    pure 1

module _ {L : LuaApi} {K : KcpApi} (udp_sendbuffer : List Datagram → ℤ) where
  unfoldable pub lkcp_methods : Method → ℕ → Cmd (World L K) ℕ
  lkcp_methods recv = lkcp_recv
  lkcp_methods send = lkcp_send
  lkcp_methods update = lkcp_update udp_sendbuffer
  lkcp_methods check = lkcp_check
  lkcp_methods input = lkcp_input
  lkcp_methods flush = lkcp_flush udp_sendbuffer
  lkcp_methods wndsize = lkcp_wndsize
  lkcp_methods nodelay = lkcp_nodelay
