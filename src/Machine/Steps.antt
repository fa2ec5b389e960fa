-- ===== src/Machine/Steps.antt =====
-- What each step of the bindings returns, in the states in which it succeeds, and how a call on a
-- freed connection ends.
use mathlib.Core.List.{append_assoc}
use lua_kcp_skynet.Prelude.{
  ℕ, suc, ◌-◌, ◌≤◌, ◌++◌, [], true, false, length, length-append, get_elem?-append_last, leb, arith,
  take-append, take, drop, ap, ◌∙◌, none, some, List, ◌∷◌, ◌≡◌, get_elem?,
}
use lua_kcp_skynet.Prelude.Int.{ℤ, pos, leb_ℤ}
use lua_kcp_skynet.Heap.{Ptr, load, write, alloc}
use lua_kcp_skynet.Outcome.{ok, fault, Cmd, ◌>>=◌}
use lua_kcp_skynet.Api.Lua.{Bytes, Value, integer, string, kcp, recv_buffer, LuaApi}
use lua_kcp_skynet.Api.Lua
use lua_kcp_skynet.Api.Kcp.{KcpApi}
use lua_kcp_skynet.Machine.{
  Kcb, Machine, slot, new_reference, check_integer, check_string, load_kcp, store_kcp,
  load_callback, user_of, on_ctl, create, guarded, check_kcp, check_buf, recv_into, put_bytes,
  push_front, push, fill, front, Buffer,
}

-- The block that `ikcp_create` makes.
abbrev pub bare : {Ctl : Type 0} → Ctl → Ptr → Kcb Ctl
bare k c = record { ctl = k; user = some c; output = false }

front-fill :
    (bytes : Bytes) (old new : Buffer) → new ≡ fill old bytes → front new (length bytes) ≡ bytes
front-fill bytes old new e =
    let there : new.bytes ≡ bytes ++ drop (length bytes) old.bytes =
      ap (λ (b : Buffer). b.bytes) e in
    rw there (
      ap (take (length bytes)) (append_assoc bytes (drop (length bytes) old.bytes) _)
      ∙ take-append bytes _)

module _ {L : LuaApi} {K : KcpApi} {Cb S : Type 0} where
  pub new_reference-ok :
      (t : ℕ) (w : Machine L K Cb S) (v : Value) (vs : List Value)
      → L.slots w.vm t ≡ v ∷ vs
      → new_reference t w
        ≡ ok (L.new_reference t w.vm).0 (record w { vm = (L.new_reference t w.vm).1 })
  unfolding new_reference
  new_reference-ok t w v vs e = rw (e, new_reference)

  pub check_integer-ok :
      Lua.IsLawful L
      → (t i : ℕ) (n : ℤ) (w : Machine L K Cb S) → slot t i w ≡ some (integer n)
      → check_integer t i w ≡ ok n w
  unfolding check_integer
  check_integer-ok lua t i n w e = rw (e, lua.to_integer-integer n)

  pub check_string-ok :
      Lua.IsLawful L
      → (t i : ℕ) (s : Bytes) (w : Machine L K Cb S)
      → get_elem? (L.slots w.vm t) i ≡ some (string s)
      → check_string t (suc i) w ≡ ok s w
  unfolding check_string
  check_string-ok lua t i s w e = rw (lua.check_string-string t i w.vm s e, check_string)

  pub check_string-of :
      (t i : ℕ) (s : Bytes) (m : L.Vm) (w : Machine L K Cb S)
      → L.check_string t i w.vm ≡ some (s, m)
      → check_string t i w ≡ ok s (record w { vm = m })
  unfolding check_string
  check_string-of t i s m w e = rw (e, check_string)

  pub create-ok :
      (conv : ℕ) (c : Ptr) (k : K.Ctl) (w : Machine L K Cb S)
      → K.create conv ≡ some k
      → create conv c w
        ≡ ok (some (alloc w.kcps (bare k c)).0) (record w { kcps = (alloc w.kcps (bare k c)).1 })
  unfolding create
  create-ok conv c k w e = rw (e, create)

  pub create-null :
      (conv : ℕ) (c : Ptr) (w : Machine L K Cb S)
      → K.create conv ≡ none
      → create conv c w ≡ ok none w
  unfolding create
  create-null conv c w e = rw (e, create)

  pub load_kcp-ok :
      (p : Ptr) (b : Kcb K.Ctl) (w : Machine L K Cb S)
      → load w.kcps p ≡ some b
      → load_kcp p w ≡ ok b w
  unfolding load_kcp
  load_kcp-ok p b w e = rw e

  pub load_callback-ok :
      (c : Ptr) (cb : Cb) (w : Machine L K Cb S)
      → load w.callbacks c ≡ some cb
      → load_callback c w ≡ ok cb w
  unfolding load_callback
  load_callback-ok c cb w e = rw e

  pub user_of-ok :
      (p c : Ptr) (b : Kcb K.Ctl) (w : Machine L K Cb S)
      → load w.kcps p ≡ some b
      → b.user ≡ some c
      → user_of p w ≡ ok c w
  unfolding user_of load_kcp
  user_of-ok p c b w e u = rw (e, u)

  pub on_ctl-ok :
      {A : Type 0} (p : Ptr) (b : Kcb K.Ctl) (f : K.Ctl → A × K.Ctl) (w : Machine L K Cb S)
      → load w.kcps p ≡ some b
      → on_ctl p f w
        ≡ ok (f b.ctl).0 (record w { kcps = write w.kcps p (record b { ctl = (f b.ctl).1 }) })
  unfolding on_ctl load_kcp store_kcp
  on_ctl-ok p b f w e = rw (e, ◌>>=◌)

  pub check_buf-ok :
      (t : ℕ) (xs : List Value) (w : Machine L K Cb S)
      → L.slots w.vm t ≡ xs ++ recv_buffer ∷ []
      → check_buf t w ≡ ok tt w
  unfolding check_buf
  check_buf-ok t xs w e =
      let last : length (xs ++ recv_buffer ∷ []) - 1 ≡ length xs =
        omega (arith, length-append {0} xs (recv_buffer ∷ [])) in
      rw (e, last, get_elem?-append_last xs recv_buffer)

  pub recv_into-ok :
      (p len : ℕ) (b : Kcb K.Ctl) (w : Machine L K Cb S)
      → load w.kcps p ≡ some b
      → length (K.recv b.ctl (pos len)).1 ≤ w.buffer.size
      → recv_into p len w
        ≡ ok (K.recv b.ctl (pos len)).0 (record w {
          kcps = write w.kcps p (record b { ctl = (K.recv b.ctl (pos len)).2 });
          buffer = fill w.buffer (K.recv b.ctl (pos len)).1;
        })
  unfolding recv_into on_ctl put_bytes load_kcp store_kcp
  recv_into-ok p len b w e fits =
      let test : leb (length (K.recv b.ctl (pos len)).1) w.buffer.size ≡ true = ground arith in
      rw (e, test, ◌>>=◌)

  -- What a receive wrote is what is pushed, whatever the buffer held before.
  pub push_front-ok :
      (t : ℕ) (bytes : Bytes) (old : Buffer) (w : Machine L K Cb S)
      → w.buffer ≡ fill old bytes
      → length bytes ≤ old.size
      → push_front t (pos (length bytes)) w ≡ ok tt (record w { vm = L.push t (string bytes) w.vm })
  unfolding push_front push
  push_front-ok t bytes old w e fits =
      let size : w.buffer.size ≡ old.size = ap (λ (b : Buffer). b.size) e in
      let test : leb_ℤ (pos (length bytes)) (pos w.buffer.size) ≡ true = ground arith in
      rw (test, front-fill bytes old w.buffer e)

  pub guarded-ok :
      (t p c : Ptr) (b : Kcb K.Ctl) (body : Ptr → Cmd (Machine L K Cb S) ℕ) (w : Machine L K Cb S)
      → slot t 1 w ≡ some (kcp (some p))
      → load w.kcps p ≡ some b
      → b.user ≡ some c
      → guarded t body w ≡ body p w
  unfolding guarded check_kcp load_kcp
  guarded-ok t p c b body w s e u = rw (s, e, u, ◌>>=◌)

  -- A call on a connection that was freed reads freed memory.
  pub guarded-dangling :
      (t p : Ptr) (body : Ptr → Cmd (Machine L K Cb S) ℕ) (w : Machine L K Cb S)
      → slot t 1 w ≡ some (kcp (some p))
      → load w.kcps p ≡ none
      → guarded t body w ≡ fault
  unfolding guarded check_kcp load_kcp
  guarded-dangling t p body w s e = rw (s, e, ◌>>=◌)
