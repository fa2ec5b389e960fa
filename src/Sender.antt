-- ===== src/Sender.antt =====
-- lua-kcp/lkcpsn.c: how a packet leaves. `kcp_output_callback` packs it on the Lua state `LL`, which
-- all services of the process share, and sends it over the shared socket.
use lua_kcp_skynet.Prelude.{
  ◌≡◌, ℕ, zero, ◌-◌, Bool, true, false, ◌∷◌, List, Option, none, some, length, suc, get_elem?,
}
use lua_kcp_skynet.Prelude.Int.{ℤ, pos, negsuc}
use lua_kcp_skynet.Heap.{Ptr, load}
use lua_kcp_skynet.Outcome.{
  Cmd, ok, fault, pure, raise, defined, address_invalid, ctx_invalid, pack_output_invalid,
  send_failed, ◌>>=◌, ◌>>◌,
}
use lua_kcp_skynet.Api.Lua.{
  Bytes, Value, integer, string, function, kcp, recv_buffer, light, skynet_context, LuaApi,
}
use lua_kcp_skynet.Api.Kcp.{KcpApi}
use lua_kcp_skynet.Machine.{slot, pop, get_field, load_kcp, load_callback}
use lua_kcp_skynet.Addresses.{Datagram, World}

-- What the callback relies on of `LL`: its `pack_output` is a function, f, and a call of it on a
-- connection's number and a packet leaves a string.
pub record Packing (L : LuaApi) : Type 0 where
  pub f : ℕ
  pub result : ℕ → Bytes → Bytes
  pub leaves :
      (conv : ℕ) (buf : Bytes)
      → L.result (function f) (integer (pos conv)) (string buf) ≡ string (result conv buf)

-- lua_touserdata: NULL, except for a userdata.
abbrev pub to_userdata : Option Value → Option Value
to_userdata (some (light (some p))) = some (light (some p))
to_userdata (some (kcp p)) = some (kcp p)
to_userdata (some recv_buffer) = some recv_buffer
to_userdata _ = none

abbrev pub is_function_value : Option Value → Bool
is_function_value (some (function f)) = true
is_function_value _ = false

module _ {L : LuaApi} {K : KcpApi} where
  -- A call of the API on the main thread of `LL`, here thread 0; NULL must not be used.
  unfoldable pub on_ll : (L.Vm → L.Vm) → Cmd (World L K) (Unit {0})
  on_ll f w = elim w.statics.ll [
    | none ↦ fault
    | some m ↦ ok tt (record w { statics = record (w.statics) { ll = some (f m) } })
  ]

  -- lua_isfunction(LL, -1)
  unfoldable pub ll_is_function : Cmd (World L K) Bool
  ll_is_function w = elim w.statics.ll [
    | none ↦ fault
    | some m ↦ ok (is_function_value (get_elem? (L.slots m 0) (length (L.slots m 0) - 1))) w
  ]

  -- luaL_checklstring(LL, i, &size). Its error is unprotected, so that it ends the process.
  unfoldable pub ll_check_string : ℕ → Cmd (World L K) Bytes
  ll_check_string i w = elim w.statics.ll [
    | none ↦ fault
    | some m ↦ elim (L.check_string 0 i m) [
      | none ↦ fault
      | some (s, m') ↦ ok s (record w { statics = record (w.statics) { ll = some m' } })
    ]
  ]

  -- if(!lua_isfunction(LL, -1)) …
  unfoldable pub call_pack : ℕ → Bytes → Bool → Cmd (World L K) Bytes
  call_pack conv buf false = raise pack_output_invalid
  call_pack conv buf true = do
    on_ll (L.push 0 (integer (pos conv)))
    on_ll (L.push 0 (string buf))
    on_ll (L.pcall 0)
    packed ← ll_check_string 1
    on_ll (L.pop 0)
    pure packed

  unfoldable pub pack_packet : ℕ → Bytes → Cmd (World L K) Bytes
  pack_packet conv buf = do
    on_ll (λ m. L.push 0 (L.pack_output m) m)
    is ← ll_is_function
    call_pack conv buf is

  -- if(err) …
  unfoldable pub check_sent : ℤ → Cmd (World L K) ℤ
  check_sent (pos zero) = pure (pos 0)
  check_sent (pos (suc n)) = raise send_failed
  check_sent (negsuc n) = raise send_failed

-- The result of a call of `skynet_socket_udp_sendbuffer`, which is the first of the list.
module _ {L : LuaApi} {K : KcpApi} (udp_sendbuffer : List Datagram → ℤ) where
  unfoldable pub send_datagram : Datagram → Cmd (World L K) ℤ
  send_datagram d w =
      ok (udp_sendbuffer (d ∷ w.statics.sent))
        (record w { statics = record (w.statics) { sent = d ∷ w.statics.sent } })

  -- if(!ctx) …
  unfoldable pub output_through : ℕ → Ptr → Bytes → Ptr → Option Value → Cmd (World L K) ℤ
  output_through l a buf p none = raise ctx_invalid
  output_through l a buf p (some ctx) = do
    pop l
    id ← λ w. ok w.statics.svrsock w
    b ← load_kcp p
    packed ← pack_packet (K.conv b.ctl) buf
    block ← λ w. defined (load w.statics.addresses a) w
    err ← send_datagram (record { ctx = ctx; address = block; id = id; buffer = packed })
    check_sent err

  -- if(!c->address) …
  unfoldable pub output_to : ℕ → Option Ptr → Bytes → Ptr → Cmd (World L K) ℤ
  output_to l none buf p = raise address_invalid
  output_to l (some a) buf p = do
    get_field l skynet_context
    ctx ← λ w. ok (to_userdata (slot l (length (L.slots w.vm l)) w)) w
    output_through l a buf p ctx

  unfoldable pub kcp_output_callback : Bytes → Ptr → Ptr → Cmd (World L K) ℤ
  kcp_output_callback buf p arg = do
    c ← load_callback arg
    l ← defined c.el
    output_to l c.address buf p
