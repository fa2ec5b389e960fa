-- ===== src/Machine/Rules.antt =====
-- What each step of the bindings leaves true, for any property of the state that a change of the
-- stack, of the buffer's contents or of the control block of a connection cannot break.
use lua_kcp_skynet.Prelude.{
  ℕ, ◌≤◌, true, some, ◌≡◌, refl, length, leb, arith, Option-cases, Bool-cases, ◌⊎◌, inl, inr,
}
use lua_kcp_skynet.Prelude.Int.{ℤ, pos, ltb_ℤ, leb_ℤ}
use lua_kcp_skynet.Heap.{Ptr, load, write}
use lua_kcp_skynet.Outcome.{Cmd, ◌>>=◌}
use lua_kcp_skynet.Outcome.Rules.{
  Ends, returns, raises, bind, Keeps, Keeps-bind, keeps, or_raise-Ends,
}
use lua_kcp_skynet.Api.Lua.{Bytes, Value, kcp, Key, LuaApi, Called, returned, failed}
use lua_kcp_skynet.Api.Lua
use lua_kcp_skynet.Api.Kcp.{KcpApi, Run, finish, emit}
use lua_kcp_skynet.Api.Kcp
use lua_kcp_skynet.Machine.{
  Kcb, Buffer, Machine, push, pop, get_field, check_kcp, check_integer, check_string, check_buf,
  load_kcp, store_kcp, on_ctl, recv_into, put_bytes, output, drive, start, not_args, guarded,
  user_of, slot, raw_get, is_function, call, push_front,
}

Called-cases :
    {Vm : Type 0} (c : Called Vm) → ((m : Vm) × (c ≡ returned m)) ⊎ ((m : Vm) × (c ≡ failed m))
Called-cases (returned m) = inl (m, refl)
Called-cases (failed m) = inr (m, refl)

module _ {L : LuaApi} {K : KcpApi} {Cb S : Type 0} (I : Machine L K Cb S → Type 0) where
  pub record Frame (p : Ptr) : Type 0 where
    pub on_vm :
        (w : Machine L K Cb S) (m : L.Vm)
        → L.references m ≡ L.references w.vm
        → I w
        → I (record w { vm = m })
    pub on_buffer :
        (w : Machine L K Cb S) (b : Buffer)
        → b.size ≡ w.buffer.size
        → I w
        → I (record w { buffer = b })
    pub on_block :
        (w : Machine L K Cb S) (b : Kcb K.Ctl) (k : K.Ctl)
        → load w.kcps p ≡ some b
        → I w
        → I (record w { kcps = write w.kcps p (record b { ctl = k }) })

  -- While the property holds, p is a live connection whose user block is c.
  pub record Connected (p c : Ptr) : Type 0 where
    pub block :
        (w : Machine L K Cb S)
        → I w
        → (b : Kcb K.Ctl) × (load w.kcps p ≡ some b) × (b.user ≡ some c) × (b.output ≡ true)

module _ {L : LuaApi} {K : KcpApi} {Cb S : Type 0} {I : Machine L K Cb S → Type 0} {p : Ptr}
    (lua : Lua.IsLawful L) (F : Frame I p) where
  pub push-Keeps : (t : ℕ) (v : Value) → Keeps I (push t v)
  unfolding push
  push-Keeps t v = record { keep = λ w i. returns (F.on_vm w _ (lua.references-push t v w.vm) i) }

  pub pop-Keeps : (t : ℕ) → Keeps I (pop t)
  unfolding pop
  pop-Keeps t = record { keep = λ w i. returns (F.on_vm w _ (lua.references-pop t w.vm) i) }

  pub get_field-Keeps : (t : ℕ) (k : Key) → Keeps I (get_field t k)
  unfolding get_field
  get_field-Keeps t k = record {
    keep = λ w i. returns (F.on_vm w _ (lua.references-push t _ w.vm) i);
  }

  pub check_kcp-Keeps : (t i : ℕ) → Keeps I (check_kcp t i)
  unfolding check_kcp
  check_kcp-Keeps t i = record { keep = λ w h. or_raise-Ends _ _ w h }

  pub check_integer-Keeps : (t i : ℕ) → Keeps I (check_integer t i)
  unfolding check_integer
  check_integer-Keeps t i = record { keep = λ w h. or_raise-Ends _ _ w h }

  pub check_buf-Keeps : (t : ℕ) → Keeps I (check_buf t)
  unfolding check_buf
  check_buf-Keeps t = record { keep = λ w h. or_raise-Ends _ _ w h }

  pub check_string-Keeps : (t i : ℕ) → Keeps I (check_string t i)
  unfolding check_string
  check_string-Keeps t i = record {
    keep = λ w h. elim (Option-cases (L.check_string t i w.vm)) [
      | inl e ↦ rw (e, check_string) (raises h)
      | inr (sm, e) ↦
          rw (e, check_string) (returns (F.on_vm w sm.1 (lua.check_string-keeps t i w.vm e) h))
    ];
  }

  pub raw_get-Keeps : (t : ℕ) (r : ℤ) → Keeps I (raw_get t r)
  unfolding raw_get
  raw_get-Keeps t r = record {
    keep = λ w i. returns (F.on_vm w _ (lua.references-push t _ w.vm) i);
  }

  pub is_function-Keeps : (t : ℕ) → Keeps I (is_function t)
  unfolding is_function
  is_function-Keeps t = record { keep = λ w i. returns i }

  pub call-Keeps : (t : ℕ) → Keeps I (call t)
  unfolding call
  call-Keeps t = record {
    keep = λ w i. elim (Called-cases (L.call t w.vm)) [
      | inl (m, e) ↦ rw (e, call) (returns (F.on_vm w m (lua.call-references t w.vm m e) i))
      | inr (m, e) ↦ rw (e, call) (raises (F.on_vm w m (lua.call-references_failed t w.vm m e) i))
    ];
  }

  pub push_front-Keeps :
      (t : ℕ) (n : ℤ) (len : ℕ)
      → ((w : Machine L K Cb S) → I w → w.buffer.size ≡ len)
      → leb_ℤ n (pos len) ≡ true
      → Keeps I (push_front t n)
  unfolding push_front
  push_front-Keeps t n len size fits = record {
    keep = λ w i.
        let fits' : leb_ℤ n (pos w.buffer.size) ≡ true = rw (size w i) fits in
        rw fits' ((push-Keeps t _).keep w i);
  }

  pub not_args-Keeps : (t : ℕ) → Keeps I (not_args t)
  unfolding not_args
  not_args-Keeps t = search (keeps, push-Keeps)

module _ {L : LuaApi} {K : KcpApi} {Cb S : Type 0} {I : Machine L K Cb S → Type 0} {p c : Ptr}
    (F : Frame I p) (up : Connected I p c) where
  pub user_of-bind :
      {A : Type 0} (k : Ptr → Cmd (Machine L K Cb S) A) → Keeps I (k c) → Keeps I (user_of p >>= k)
  unfolding user_of load_kcp
  user_of-bind k h = record {
    keep = λ w i. let (b, e, u, o) = up.block w i in rw (e, u, ◌>>=◌) (h.keep w i);
  }

  pub on_ctl-Keeps : {A : Type 0} (f : K.Ctl → A × K.Ctl) → Keeps I (on_ctl p f)
  unfolding on_ctl load_kcp store_kcp
  on_ctl-Keeps f = record {
    keep = λ w i. let (b, e, u, o) = up.block w i in rw (e, ◌>>=◌) (returns (F.on_block w b _ e i));
  }

  pub output-Keeps :
      (callback : Bytes → Ptr → Ptr → Cmd (Machine L K Cb S) ℤ) (buf : Bytes)
      → Keeps I (callback buf p c)
      → Keeps I (output callback buf p)
  unfolding output load_kcp
  output-Keeps callback buf h = record {
    keep = λ w i. let (b, e, u, o) = up.block w i in rw (e, u, o, ◌>>=◌) (h.keep w i);
  }

  pub drive-Keeps :
      (callback : Bytes → Ptr → Ptr → Cmd (Machine L K Cb S) ℤ)
      → ((buf : Bytes) → Keeps I (callback buf p c))
      → (run : Run K.Ctl) → Keeps I (drive callback p run)
  unfolding drive
  drive-Keeps callback h (finish k) = on_ctl-Keeps _
  drive-Keeps callback h (emit buf k next) =
      Keeps-bind (on_ctl-Keeps _)
        (λ _. Keeps-bind (output-Keeps callback buf (h buf)) (λ r. drive-Keeps callback h (next r)))

  pub start-Keeps :
      (callback : Bytes → Ptr → Ptr → Cmd (Machine L K Cb S) ℤ) (f : K.Ctl → Run K.Ctl)
      → ((buf : Bytes) → Keeps I (callback buf p c))
      → Keeps I (start callback p f)
  unfolding start load_kcp
  start-Keeps callback f h = record {
    keep = λ w i.
        let (b, e, u, o) = up.block w i in
        rw (e, ◌>>=◌) ((drive-Keeps callback h (f b.ctl)).keep w i);
  }

  put_bytes-Keeps :
      (len : ℕ)
      → ((w : Machine L K Cb S) → I w → w.buffer.size ≡ len)
      → (bytes : Bytes) → length bytes ≤ len
      → Keeps I (put_bytes bytes)
  unfolding put_bytes
  put_bytes-Keeps len size bytes fits = record {
    keep = λ w i.
        let ok_len : leb (length bytes) w.buffer.size ≡ true = ground (arith, size w i) in
        rw ok_len (returns (F.on_buffer w _ refl i));
  }

  -- What a receive reports fits its length argument.
  recv-le : Kcp.IsLawful K → (k : K.Ctl) (len : ℕ) → leb_ℤ (K.recv k (pos len)).0 (pos len) ≡ true
  recv-le lawful k len = elim (Bool-cases (ltb_ℤ (pos 0) (K.recv k (pos len)).0)) [
    | inl some_bytes ↦
        rw (lawful.recv-counts k len some_bytes) (ground (arith, lawful.recv-fits k len))
    | inr nothing ↦ ground arith
  ]

  -- A receive stays within the buffer, and its report fits.
  recv_into-Ends :
      Kcp.IsLawful K
      → (len : ℕ) → ((w : Machine L K Cb S) → I w → w.buffer.size ≡ len)
      → (w : Machine L K Cb S) → I w
      → Ends (λ hr w'. (leb_ℤ hr (pos len) ≡ true) × I w') I (recv_into p len w)
  unfolding recv_into on_ctl load_kcp store_kcp
  recv_into-Ends lawful len size w i =
      let (b, e, u, o) = up.block w i in
      rw (e, ◌>>=◌)
        (bind
          ((put_bytes-Keeps len size (K.recv b.ctl (pos len)).1 (lawful.recv-fits b.ctl len)).keep _
            (F.on_block w b _ e i))
          (λ _ w' i'. returns (recv-le lawful b.ctl len, i')))

  pub recv_into-bind :
      {A : Type 0}
      → Kcp.IsLawful K
      → (len : ℕ) → ((w : Machine L K Cb S) → I w → w.buffer.size ≡ len)
      → (rest : ℤ → Cmd (Machine L K Cb S) A)
      → ((hr : ℤ) → leb_ℤ hr (pos len) ≡ true → Keeps I (rest hr))
      → Keeps I (recv_into p len >>= rest)
  recv_into-bind lawful len size rest h = record {
    keep = λ w i. bind (recv_into-Ends lawful len size w i) (λ hr w' q. (h hr q.0).keep w' q.1);
  }

  -- A method on a connection runs its body.
  pub guarded-Ends :
      (t : ℕ) (body : Ptr → Cmd (Machine L K Cb S) ℕ) (w : Machine L K Cb S)
      → slot t 1 w ≡ some (kcp (some p))
      → I w
      → Keeps I (body p)
      → Ends (λ _. I) I (guarded t body w)
  unfolding guarded check_kcp load_kcp
  guarded-Ends t body w s i h = let (b, e, u, o) = up.block w i in rw (s, e, u, ◌>>=◌) (h.keep w i)
