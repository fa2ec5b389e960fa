-- ===== src/Together.antt =====
-- lua-kcp/lkcpsn.c: two services of one process that run on threads of their own and pack packets on
-- the shared Lua state `LL`. A thread can be interrupted between any two calls of the API, and each
-- call is one step. `lock_on` and `lock_off` stand where `lkcp_update` and `lkcp_flush` have them,
-- around the output callback.
pub mod Order
pub mod Steps
pub mod Turns
pub mod Places
pub mod Exclusive
pub mod Race
pub mod Schedules
pub mod Finish
pub mod Walks
pub mod Progress
use lua_kcp_skynet.Prelude.{ℕ, zero, suc, List, [], ◌∷◌, Bool, true, false, ◌&&◌, if◌then◌else◌}
use lua_kcp_skynet.Prelude.Int.{ℤ, pos}
use lua_kcp_skynet.Outcome.{
  LuaError, pack_output_invalid, Outcome, ok, raised, fault, Cmd, pure, undefined, raise, ◌>>=◌,
  ◌>>◌, and_then,
}
use lua_kcp_skynet.Api.Lua.{Bytes, integer, string, LuaApi}
use lua_kcp_skynet.Api.Kcp.{KcpApi}
use lua_kcp_skynet.Addresses.{Datagram, World}
use lua_kcp_skynet.Sender.{on_ll, ll_is_function, ll_check_string, send_datagram, check_sent}

-- Where a service is: before the call of that name, at the end, or left by a Lua error.
pub data Pc : Type 0 where
  lock get_global is_function push_conv push_buf call check_string pop send unlock done : Pc
  failed : LuaError → Pc

-- A service with one packet of a connection of that number to send. `envelope` is the datagram that
-- it makes of the packed bytes: the context, address and socket, which the other service does not
-- write meanwhile. `packed` is what it read, by a pointer into a string of `LL` that it then pops;
-- `stale` says that the string may have been collected since.
pub record Service : Type 0 where
  pub conv : ℕ
  pub buf : Bytes
  pub envelope : Bytes → Datagram
  pub packed : Bytes
  pub pc : Pc
  pub stale : Bool

abbrev pub fresh : ℕ → Bytes → (Bytes → Datagram) → Service
fresh conv buf envelope = record {
  conv = conv;
  buf = buf;
  envelope = envelope;
  packed = [];
  pc = lock;
  stale = false;
}

module _ {L : LuaApi} {K : KcpApi} where
  -- The macros of lkcpsn.c; their bodies are comments.
  abbrev pub lock_on : Cmd (World L K) (Unit {0})
  lock_on = pure tt

  abbrev pub lock_off : Cmd (World L K) (Unit {0})
  lock_off = pure tt

  -- if(!lua_isfunction(LL, -1)) …
  abbrev pub checked : Service → Bool → Cmd (World L K) Service
  checked s true = pure (record s { pc = push_conv })
  checked s false = raise pack_output_invalid

  -- A read through the pointer.
  abbrev pub read_packed : Service → Bool → Cmd (World L K) Bytes
  read_packed s false = pure s.packed
  read_packed s true = undefined

-- A Lua error ends the service's call, and the other service goes on.
abbrev pub settled : {W : Type 0} → Service → Outcome W Service → Outcome W Service
settled s (ok s' w) = ok s' w
settled s (raised e w) = ok (record s { pc = failed e }) w
settled s fault = fault

module _ {L : LuaApi} {K : KcpApi} (udp_sendbuffer : List Datagram → ℤ) where
  unfoldable pub step : Pc → Service → Cmd (World L K) Service
  step lock s = do lock_on; pure (record s { pc = get_global })
  step get_global s = do
    on_ll (λ m. L.push 0 (L.pack_output m) m)
    pure (record s { pc = is_function })
  step is_function s = do is ← ll_is_function; checked s is
  step push_conv s = do on_ll (L.push 0 (integer (pos s.conv))); pure (record s { pc = push_buf })
  step push_buf s = do on_ll (L.push 0 (string s.buf)); pure (record s { pc = call })
  step call s = do on_ll (L.pcall 0); pure (record s { pc = check_string })
  step check_string s = do packed ← ll_check_string 1; pure (record s { packed = packed; pc = pop })
  step pop s = do on_ll (L.pop 0); pure (record s { pc = send })
  step send s = do
    packed ← read_packed s s.stale
    err ← send_datagram udp_sendbuffer (s.envelope packed)
    check_sent err
    pure (record s { pc = unlock })
  step unlock s = do lock_off; pure (record s { pc = done })
  step done s = pure s
  step (failed e) s = pure s

  -- A step of one service, and n steps with nobody else in between.
  unfoldable pub turn : Service → Cmd (World L K) Service
  turn s w = settled s (step s.pc s w)

  unfoldable pub solo : ℕ → Service → Cmd (World L K) Service
  solo zero s = pure s
  solo (suc n) s = turn s >>= solo n

-- Two services, and the order in which the scheduler lets them step.
pub data Who : Type 0 where
  first second : Who

pub record Pair : Type 0 where
  pub a : Service
  pub b : Service

-- The calls of the API on `LL`, any of which may pop a string or run the collector.
abbrev pub uses_ll : Pc → Bool
uses_ll get_global = true
uses_ll is_function = true
uses_ll push_conv = true
uses_ll push_buf = true
uses_ll call = true
uses_ll check_string = true
uses_ll pop = true
uses_ll _ = false

-- Where a service has a pointer that it still needs.
abbrev pub points : Pc → Bool
points pop = true
points send = true
points _ = false

-- What a step of one service, from there, does to the other: after a call on `LL` its pointer may
-- lead nowhere.
abbrev pub beside : Pc → Service → Service
beside x s = if points s.pc && uses_ll x then record s { stale = true } else s

module _ {L : LuaApi} {K : KcpApi} (udp_sendbuffer : List Datagram → ℤ) where
  unfoldable pub turn_of : Who → Pair → Cmd (World L K) Pair
  turn_of first p = do s ← turn udp_sendbuffer p.a; pure (record { a = s; b = beside p.a.pc p.b })
  turn_of second p = do s ← turn udp_sendbuffer p.b; pure (record { a = beside p.b.pc p.a; b = s })

  unfoldable pub run : List Who → Pair → Cmd (World L K) Pair
  run [] p = pure p
  run (who ∷ schedule) p = turn_of who p >>= run schedule
