-- ===== src/Lkcpsn/Sessions/Create.antt =====
-- `lkcp_lkcp_create` of lkcpsn.c: with any arguments the invariant is kept, and at most one session is
-- added.
use lua_kcp_skynet.Prelude.{
  ℕ, ◌≤◌, none, some, ◌≡◌, inl, inr, refl, sym, ◌⊎◌, ◌∙◌, length, Option-cases, true,
}
use lua_kcp_skynet.Prelude.Int.{ℤ}
use lua_kcp_skynet.Prelude.Word.{u32, int32}
use lua_kcp_skynet.Heap.{Ptr, alloc}
use lua_kcp_skynet.Heap.Laws.{load-alloc, write-alloc}
use lua_kcp_skynet.Outcome.{◌>>=◌, and_then}
use lua_kcp_skynet.Outcome.Rules.{Ends, returns, raises, mono}
use lua_kcp_skynet.Api.Lua.{Bytes, kcp, LuaApi}
use lua_kcp_skynet.Api.Kcp.{KcpApi}
use lua_kcp_skynet.Machine.{
  slot, check_integer, check_string, alloc_callback, free_callback, load_callback, load_kcp,
  store_kcp, push, create, in_slot,
}
use lua_kcp_skynet.Machine.Steps.{create-ok, create-null, bare}
use lua_kcp_skynet.Addresses.{Callback, Block, World}
use lua_kcp_skynet.Addresses.Fill.{c_string, new_address-ok}
use lua_kcp_skynet.Addresses.Print.{print_address-ok, length-c_string}
use lua_kcp_skynet.Lkcpsn.{lkcp_create, connect, created, bind_socket}
use lua_kcp_skynet.Lkcpsn.Blocks.{added, added-Sound}
use lua_kcp_skynet.Lkcpsn.Collect.{left_over, left_over-Sound}
use lua_kcp_skynet.Lkcpsn.Whole.{same_kcps}
use lua_kcp_skynet.Lkcpsn.Running.{Running, Running-on_vm, Running-of}
use lua_kcp_skynet.Lkcpsn.Sessions.{Table, session, session-same}
use lua_kcp_skynet.Lkcpsn.Sessions.Steps.{Added, Fresh, Unchanged, left_over-session, added-Fresh}

module _ {L : LuaApi} {K : KcpApi} (f : ℕ) (w w' : World L K) where
  -- The invariant holds, and the sessions are as they were.
  abbrev pub Kept : Type 0
  Kept = Running f w' × Unchanged (session w) (session w')

  -- The invariant holds, and there is at most one session more, of that number and address.
  abbrev Connected : ℕ → Bytes → Type 0
  Connected conv address =
      Running f w'
      × (Unchanged (session w) (session w') ⊎ Fresh conv address (session w) (session w'))

-- The invariant holds, and the sessions are as they were, but for one that may have been added.
module _ {L : LuaApi} {K : KcpApi} (f t : ℕ) (w w' : World L K) where
  abbrev pub Created : Type 0
  Created = Running f w' × (Unchanged (session w) (session w') ⊎ Added t w (session w) (session w'))

-- Tables with the same entries.
Fresh-on :
    {K : KcpApi} {conv : ℕ} {address : Bytes} (T T1 T2 T' : Table K)
    → Unchanged T1 T
    → Unchanged T2 T'
    → Fresh conv address T1 T2
    → Fresh conv address T T'
Fresh-on T T1 T2 T' same same' x = record {
  p = x.p;
  ctl = x.ctl;
  made = x.made;
  is_new = same x.p ∙ x.is_new;
  new = same' x.p ∙ x.new;
  others = λ q differ. same' q ∙ x.others q differ ∙ sym (same q);
}

module _ {L : LuaApi} {K : KcpApi} where
  module _ (f t conv : ℕ) (address : Bytes) (w : World L K) (i : Running f w) where
    abbrev block : Block
    block = c_string address

    abbrev a_of : Ptr
    a_of = (alloc w.statics.addresses block).0

    abbrev callback : Callback
    callback = record {
      handle = 0;
      l = some t;
      el = some t;
      address = some a_of;
      addresssz = length address;
    }

    abbrev c_of : Ptr
    c_of = (alloc w.callbacks callback).0

    abbrev allocated : World L K
    allocated = record w {
      callbacks = (alloc w.callbacks callback).1;
      statics = record (w.statics) { addresses = (alloc w.statics.addresses block).1 };
    }

    connect-start :
        connect t address conv w ≡ and_then (create conv c_of allocated) (created t c_of)
    unfolding connect alloc_callback
    connect-start = rw (new_address-ok address w, ◌>>=◌)

    connect-null :
        K.create conv ≡ none
        → Ends (λ _ w'. Connected f w w' conv address) (Kept f w) (connect t address conv w)
    unfolding created free_callback load_callback push
    connect-null e =
        let rest : World L K = left_over w i.sound callback block in
        rw
          (connect-start, create-null conv c_of allocated e, ◌>>=◌, load-alloc w.callbacks callback)
          (returns (
            Running-on_vm f rest _
                (Running-of f w rest refl i.shared (left_over-Sound w i.sound callback block)),
            inl (λ q.
                session-same rest _ q refl refl refl
                ∙ left_over-session w i.sound callback block q),
          ))

    connect-made :
        (k : K.Ctl)
        → K.create conv ≡ some k
        → 2 ≤ length address
        → Ends (λ _ w'. Connected f w w' conv address) (Kept f w) (connect t address conv w)
    unfolding created load_callback load_kcp store_kcp push
    connect-made k e enough =
        let p = (alloc w.kcps (bare k c_of)).0 in
        let more : World L K =
          added w i.sound k block callback t refl refl (length-c_string address) in
        let last : World L K = record more { vm = L.push t (kcp (some p)) w.vm } in
        let (r, printed) =
          print_address-ok a_of address last (load-alloc w.statics.addresses block) enough in
        rw
          (
            connect-start,
            create-ok conv c_of k allocated e,
            ◌>>=◌,
            load-alloc w.kcps (bare k c_of),
            ◌>>=◌,
            write-alloc w.kcps (bare k c_of) (record (bare k c_of) { output = true }),
            load-alloc w.callbacks callback,
            printed,
          )
          (returns (
            Running-on_vm f more _ (
                Running-of f w more refl i.shared
                  (added-Sound w i.sound k block callback t refl refl (length-c_string address))),
            inr (
                Fresh-on (session w) (session w) (session more) _ (λ q. refl)
                  (λ q. session-same more _ q refl refl refl)
                  (added-Fresh w i.sound k block callback t refl refl (length-c_string address) conv
                    address e refl)),
          ))

    connect-Ends :
        2 ≤ length address
        → Ends (λ _ w'. Connected f w w' conv address) (Kept f w) (connect t address conv w)
    connect-Ends enough = elim (Option-cases (K.create conv)) [
      | inl e ↦ connect-null e
      | inr (k, e) ↦ connect-made k e enough
    ]

  -- A state that differs in the virtual machine and the server's socket only.
  Kept-alike :
      (f : ℕ) (w : World L K) (m : L.Vm) (n : ℕ)
      → Running f w
      → Kept f w (record w { vm = m; statics = record (w.statics) { svrsock = n } })
  Kept-alike f w m n i =
      let w' : World L K = record w { vm = m; statics = record (w.statics) { svrsock = n } } in
      (
        Running-of f w w' refl i.shared (same_kcps w w' i.sound refl refl refl refl),
        λ q. session-same w w' q refl refl refl,
      )

  module _ (f t : ℕ) (w : World L K) (i : Running f w) where
    -- Once the arguments are read, with the virtual machine as it is then.
    from_connect :
        (m : L.Vm) (n : ℕ) (address : Bytes) (conv : ℤ)
        → L.check_string t 2 w.vm ≡ some (address, m)
        → in_slot L.to_integer (slot t 3 (record w { vm = m })) ≡ some conv
        → 2 ≤ length address
        → Ends
            (λ _. Created f t w)
            (Kept f w)
            (connect t address
              (u32 (int32 conv))
              (record w { vm = m; statics = record (w.statics) { svrsock = n } }))
    from_connect m n address conv second third enough =
        let w' : World L K = record w { vm = m; statics = record (w.statics) { svrsock = n } } in
        let (running, kept) = Kept-alike f w m n i in
        mono (connect-Ends f t (u32 (int32 conv)) address w' running enough)
          (λ _ v x. elim x.1 [
            | inl same ↦ (x.0, inl (λ q. same q ∙ kept q))
            | inr fresh ↦ (
              x.0,
              inr (record {
                conv = conv;
                address = address;
                vm = m;
                second_slot = second;
                third_slot = third;
                fresh =
                    Fresh-on (session w) (session w') (session v) (session v) (λ q. sym (kept q))
                      (λ q. refl) fresh;
              }),
            )
          ])
          (λ v x. (x.0, λ q. x.1 q ∙ kept q))

    -- A creation with any arguments, except for an address of fewer than two bytes.
    pub lkcp_create-Ends :
        ((s : Bytes) (m : L.Vm) → L.check_string t 2 w.vm ≡ some (s, m) → 2 ≤ length s)
        → Ends (λ _. Created f t w) (Kept f w) (lkcp_create t w)
    unfolding lkcp_create check_integer check_string bind_socket
    lkcp_create-Ends enough = elim (Option-cases (in_slot L.to_integer (slot t 1 w))) [
      | inl e ↦ rw (e, ◌>>=◌) (raises (i, λ q. refl))
      | inr (sock, e) ↦ elim (Option-cases (L.check_string t 2 w.vm)) [
        | inl e' ↦ rw (e, ◌>>=◌, check_string, e') (raises (i, λ q. refl))
        | inr ((s, m), e') ↦
            elim (Option-cases (in_slot L.to_integer (slot t 3 (record w { vm = m })))) [
              | inl e'' ↦
                  rw (e, ◌>>=◌, check_string, e', ◌>>=◌, e'')
                    (raises (Kept-alike f w m w.statics.svrsock i))
              | inr (conv, e'') ↦
                  rw (e, ◌>>=◌, check_string, e', ◌>>=◌, e'', ◌>>=◌)
                    (from_connect m _ s conv e' e'' (enough s m e'))
            ]
      ]
    ]
