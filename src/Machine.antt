-- ===== src/Machine.antt =====
-- What lkcp.c and lkcpsn.c have in common: the state of the process as the bindings see it, and the
-- steps they are made of. `Cb` is the file's `struct Callback`, `S` its other state.
pub mod Rules
pub mod Steps
pub mod Open
pub mod Args
use Prim.Native.Char.{code}
use Prim.Native.String.{String}
use lua_kcp_skynet.Prelude.{
  ℕ, zero, suc, ◌+◌, ◌-◌, ◌*◌, ◌%◌, Bool, true, false, List, [], ◌∷◌, ◌++◌, Option, none, some,
  length, get_elem?, take, drop, replicate, leb, ltb, if◌then◌else◌,
}
use lua_kcp_skynet.Prelude.Int.{ℤ, pos, pos_part, leb_ℤ}
use lua_kcp_skynet.Heap.{Ptr, Heap, load, alloc, write, free}
use lua_kcp_skynet.Outcome.{
  LuaError, bad_argument, bad_buffer, failed_call, Outcome, ok, raised, fault, Cmd, pure, raise,
  undefined, defined, or_raise, and_then, ◌>>=◌, ◌>>◌,
}
use lua_kcp_skynet.Api.Lua.{
  Bytes, Value, nil, string, function, kcp, recv_buffer, returned, failed, referred, Key,
  kcp_lua_recv_buffer, LuaApi,
}
use lua_kcp_skynet.Api.Kcp.{KcpApi, Run, finish, emit}

-- The bytes of a C string literal.
abbrev pub text : String → Bytes
text String.[] = []
text (String.◌∷◌ c s) = code c ∷ text s

-- `ikcpcb`: the part that the library keeps to itself, `kcp->user`, and whether `kcp->output` is set.
pub record Kcb (Ctl : Type 0) : Type 0 where
  pub ctl : Ctl
  pub user : Option Ptr
  pub output : Bool

-- A buffer of `size` bytes: those written since it was cleared; the rest are zero.
pub record Buffer : Type 0 where
  pub size : ℕ
  pub bytes : Bytes

pub record Machine (L : LuaApi) (K : KcpApi) (Cb S : Type 0) : Type 0 where
  pub vm : L.Vm
  pub kcps : Heap (Kcb K.Ctl)
  pub callbacks : Heap Cb
  pub buffer : Buffer
  pub statics : S

-- `memcpy(buf, bytes, n)`, and the first `n` bytes of a buffer.
abbrev pub fill : Buffer → Bytes → Buffer
fill b bytes = record b { bytes = bytes ++ drop (length bytes) b.bytes }

abbrev pub front : Buffer → ℕ → Bytes
front b n = take n (b.bytes ++ replicate (n - length b.bytes) 0)

abbrev pub as_kcp : Value → Option (Option Ptr)
as_kcp (kcp p) = some p
as_kcp _ = none

abbrev as_buffer : Value → Option (Unit {0})
as_buffer recv_buffer = some tt
as_buffer _ = none

abbrev pub is_function_value : Option Value → Bool
is_function_value (some (function f)) = true
is_function_value _ = false

abbrev pub in_slot : {A : Type 0} → (Value → Option A) → Option Value → Option A
in_slot f none = none
in_slot f (some v) = f v

module _ {L : LuaApi} {K : KcpApi} {Cb S : Type 0} where
  abbrev pub on_vm : (L.Vm → L.Vm) → Cmd (Machine L K Cb S) (Unit {0})
  on_vm f w = ok tt (record w { vm = f w.vm })

  unfoldable pub push : ℕ → Value → Cmd (Machine L K Cb S) (Unit {0})
  push t v = on_vm (L.push t v)

  unfoldable pub pop : ℕ → Cmd (Machine L K Cb S) (Unit {0})
  pop t = on_vm (L.pop t)

  -- lua_getfield(L, LUA_REGISTRYINDEX, k)
  unfoldable pub get_field : ℕ → Key → Cmd (Machine L K Cb S) (Unit {0})
  get_field t k w = ok tt (record w { vm = L.push t (L.field w.vm k) w.vm })

  -- The value in slot i of thread t, slots counted from 1.
  abbrev pub slot : ℕ → ℕ → Machine L K Cb S → Option Value
  slot t i w = get_elem? (L.slots w.vm t) (i - 1)

  -- check_kcp(L, i): the pointer that the userdata's block holds.
  unfoldable pub check_kcp : ℕ → ℕ → Cmd (Machine L K Cb S) (Option Ptr)
  check_kcp t i w = or_raise (in_slot as_kcp (slot t i w)) (bad_argument i) w

  -- luaL_checkinteger(L, i)
  unfoldable pub check_integer : ℕ → ℕ → Cmd (Machine L K Cb S) ℤ
  check_integer t i w = or_raise (in_slot L.to_integer (slot t i w)) (bad_argument i) w

  -- luaL_checklstring(L, i, &size): a number in the slot is turned into a string there.
  unfoldable pub check_string : ℕ → ℕ → Cmd (Machine L K Cb S) Bytes
  check_string t i w = elim (L.check_string t i w.vm) [
    | none ↦ raised (bad_argument i) w
    | some (s, m) ↦ ok s (record w { vm = m })
  ]

  -- check_buf(L, -1)
  unfoldable pub check_buf : ℕ → Cmd (Machine L K Cb S) (Unit {0})
  check_buf t w = or_raise (in_slot as_buffer (slot t (length (L.slots w.vm t)) w)) bad_buffer w

  -- luaL_ref(L, LUA_REGISTRYINDEX); it takes the top of the stack, which must not be empty.
  unfoldable pub new_reference : ℕ → Cmd (Machine L K Cb S) ℤ
  new_reference t w = elim (L.slots w.vm t) [
    | [] ↦ fault
    | _ ∷ _ ↦ ok (L.new_reference t w.vm).0 (record w { vm = (L.new_reference t w.vm).1 })
  ]

  -- luaL_unref(l, LUA_REGISTRYINDEX, r) through a thread, which must not have been collected.
  unfoldable pub drop_reference : Option ℕ → ℤ → Cmd (Machine L K Cb S) (Unit {0})
  drop_reference none r w = fault
  drop_reference (some l) r w =
      if L.is_alive w.vm l then ok tt (record w { vm = L.drop_reference r w.vm }) else fault

  -- lua_rawgeti(L, LUA_REGISTRYINDEX, r)
  unfoldable pub raw_get : ℕ → ℤ → Cmd (Machine L K Cb S) (Unit {0})
  raw_get t r w = ok tt (record w { vm = L.push t (referred r (L.references w.vm)) w.vm })

  -- lua_isfunction(L, -1)
  unfoldable pub is_function : ℕ → Cmd (Machine L K Cb S) Bool
  is_function t w = ok (is_function_value (slot t (length (L.slots w.vm t)) w)) w

  -- lua_call(L, 1, 0)
  unfoldable pub call : ℕ → Cmd (Machine L K Cb S) (Unit {0})
  call t w = elim (L.call t w.vm) [
    | returned m ↦ ok tt (record w { vm = m })
    | failed m ↦ raised failed_call (record w { vm = m })
  ]

  -- `*kcp`, and a write to one of its fields. A read of a freed block is undefined.
  unfoldable pub load_kcp : Ptr → Cmd (Machine L K Cb S) (Kcb K.Ctl)
  load_kcp p w = defined (load w.kcps p) w

  unfoldable pub store_kcp : Ptr → Kcb K.Ctl → Cmd (Machine L K Cb S) (Unit {0})
  store_kcp p b w = ok tt (record w { kcps = write w.kcps p b })

  unfoldable pub load_callback : Ptr → Cmd (Machine L K Cb S) Cb
  load_callback c w = defined (load w.callbacks c) w

  unfoldable pub store_callback : Ptr → Cb → Cmd (Machine L K Cb S) (Unit {0})
  store_callback c cb w = ok tt (record w { callbacks = write w.callbacks c cb })

  -- malloc(sizeof(struct Callback)) and its fields; free(c), where c was read before.
  unfoldable pub alloc_callback : Cb → Cmd (Machine L K Cb S) Ptr
  alloc_callback cb w =
      ok (alloc w.callbacks cb).0 (record w { callbacks = (alloc w.callbacks cb).1 })

  unfoldable pub free_callback : Ptr → Cmd (Machine L K Cb S) (Unit {0})
  free_callback c = do _ ← load_callback c; λ w. ok tt (record w { callbacks = free w.callbacks c })

  -- ikcp_create(conv, user): a block whose `output` is not set yet, or NULL.
  unfoldable pub create : ℕ → Ptr → Cmd (Machine L K Cb S) (Option Ptr)
  create conv user w = elim (K.create conv) [
    | none ↦ ok none w
    | some k ↦
        let b : Kcb K.Ctl = record { ctl = k; user = some user; output = false } in
        ok (some (alloc w.kcps b).0) (record w { kcps = (alloc w.kcps b).1 })
  ]

  -- ikcp_release(kcp)
  unfoldable pub release : Ptr → Cmd (Machine L K Cb S) (Unit {0})
  release p = do _ ← load_kcp p; λ w. ok tt (record w { kcps = free w.kcps p })

  -- kcp->user, NULL where it must not be being undefined.
  unfoldable pub user_of : Ptr → Cmd (Machine L K Cb S) Ptr
  user_of p = do b ← load_kcp p; defined b.user

  -- A call of the library that reads and changes the control block.
  unfoldable pub on_ctl : {A : Type 0} → Ptr → (K.Ctl → A × K.Ctl) → Cmd (Machine L K Cb S) A
  on_ctl p f = do b ← load_kcp p; store_kcp p (record b { ctl = (f b.ctl).1 }); pure (f b.ctl).0

  -- A write at the start of the receive buffer; past its end it is undefined.
  unfoldable pub put_bytes : Bytes → Cmd (Machine L K Cb S) (Unit {0})
  put_bytes bytes w =
      if leb (length bytes) w.buffer.size
      then ok tt (record w { buffer = fill w.buffer bytes })
      else fault

  -- lua_pushlstring(L, buf, n) on the receive buffer
  unfoldable pub push_front : ℕ → ℤ → Cmd (Machine L K Cb S) (Unit {0})
  push_front t n w =
      if leb_ℤ n (pos w.buffer.size) then push t (string (front w.buffer (pos_part n))) w else fault

  -- ikcp_recv(kcp, buf, len)
  unfoldable pub recv_into : Ptr → ℕ → Cmd (Machine L K Cb S) ℤ
  recv_into p len = do
    (hr, bytes) ← on_ctl p (λ k. let (hr, bytes, k') = K.recv k (pos len) in ((hr, bytes), k'))
    put_bytes bytes
    pure hr

  -- The library's call of `kcp->output` on a packet; it is undefined if that is not set.
  unfoldable pub output :
      (Bytes → Ptr → Ptr → Cmd (Machine L K Cb S) ℤ) → Bytes → Ptr → Cmd (Machine L K Cb S) ℤ
  output callback buf p = do
    b ← load_kcp p
    c ← defined b.user
    if b.output then callback buf p c else undefined

  -- A run of the library, which calls back on every packet.
  unfoldable pub drive :
      (Bytes → Ptr → Ptr → Cmd (Machine L K Cb S) ℤ)
      → Ptr
      → Run K.Ctl
      → Cmd (Machine L K Cb S) (Unit {0})
  drive callback p (finish k) = on_ctl p (λ _. (tt, k))
  drive callback p (emit buf k next) = do
    on_ctl p (λ _. (tt, k))
    r ← output callback buf p
    drive callback p (next r)

  -- ikcp_update and ikcp_flush: the library starts from the block as it is.
  unfoldable pub start :
      (Bytes → Ptr → Ptr → Cmd (Machine L K Cb S) ℤ)
      → Ptr
      → (K.Ctl → Run K.Ctl)
      → Cmd (Machine L K Cb S) (Unit {0})
  start callback p f = do b ← load_kcp p; drive callback p (f b.ctl)

  -- The macros of lkcp.c and of lkcpsn.c; their bodies are comments.
  abbrev pub lock_on : Cmd (Machine L K Cb S) (Unit {0})
  lock_on = pure tt

  abbrev pub lock_off : Cmd (Machine L K Cb S) (Unit {0})
  lock_off = pure tt

  -- The results of a method on a userdata that holds no connection.
  unfoldable pub not_args : ℕ → Cmd (Machine L K Cb S) ℕ
  not_args t = do push t nil; push t (string (text "error: kcp not args")); lock_off; pure 2

  abbrev if_user : Option Ptr → ℕ → Cmd (Machine L K Cb S) ℕ → Cmd (Machine L K Cb S) ℕ
  if_user none t body = not_args t
  if_user (some c) t body = body

  abbrev if_kcp : Option Ptr → ℕ → (Ptr → Cmd (Machine L K Cb S) ℕ) → Cmd (Machine L K Cb S) ℕ
  if_kcp none t body = not_args t
  if_kcp (some p) t body = do b ← load_kcp p; if_user b.user t (body p)

  -- How each method begins: `kcp == NULL || kcp->user == NULL` is refused.
  unfoldable pub guarded : ℕ → (Ptr → Cmd (Machine L K Cb S) ℕ) → Cmd (Machine L K Cb S) ℕ
  guarded t body = do lock_on; p ← check_kcp t 1; if_kcp p t body
