-- ===== src/Lkcpsn/Peer.antt =====
-- `lkcp_send` and `lkcp_input` set the address that a connection's packets go to.
use lua_kcp_skynet.Prelude.{ℕ, ◌++◌, List, [], ◌∷◌, some, ◌≡◌, refl, ap, ◌∙◌, length}
use lua_kcp_skynet.Prelude.Int.{ℤ, pos}
use lua_kcp_skynet.Prelude.Word.{int32}
use lua_kcp_skynet.Heap.{Ptr, load, write, live}
use lua_kcp_skynet.Heap.Laws.{load-write}
use lua_kcp_skynet.Outcome.{Cmd, ok, pure, ◌>>=◌, ◌>>◌, and_then}
use lua_kcp_skynet.Api.Lua.{Bytes, Value, integer, string, kcp, LuaApi}
use lua_kcp_skynet.Api.Lua
use lua_kcp_skynet.Api.Kcp.{KcpApi}
use lua_kcp_skynet.Machine.{push, check_string, on_ctl}
use lua_kcp_skynet.Machine.Steps.{guarded-ok, check_string-ok, check_string-of, on_ctl-ok}
use lua_kcp_skynet.Addresses.{Callback, World, set_address}
use lua_kcp_skynet.Addresses.Fill.{c_string}
use lua_kcp_skynet.Addresses.Laws.{Addressed, set_address-Holds}
use lua_kcp_skynet.Lkcpsn.{lkcp_send, lkcp_input}

module _ {L : LuaApi} {K : KcpApi} (lua : Lua.IsLawful L) (t p c a : Ptr) (cb : Callback)
    (w : World L K) (d : Addressed p c a cb w) where
  -- The connection p now has the control block k, and its packets go to the given bytes, in a
  -- block of exactly that size and a NUL; no block is lost.
  pub record Queued (k : K.Ctl) (bytes : Bytes) (w' : World L K) : Type 0 where
    pub kcb : load w'.kcps p ≡ some (record d.b { ctl = k })
    pub at_block : Ptr
    pub callback :
        load w'.callbacks c ≡ some (record cb { address = some at_block; addresssz = length bytes })
    pub content : load w'.statics.addresses at_block ≡ some (c_string bytes)
    pub kept : live w'.statics.addresses ≡ live w.statics.addresses

  -- What both do after the message is read.
  abbrev tail : (K.Ctl → ℤ × K.Ctl) → Cmd (World L K) ℕ
  tail f = do
    hr ← on_ctl p f
    push t (integer hr)
    address ← check_string t 3
    set_address p address
    pure 1

  abbrev queued : (ℤ × K.Ctl) → L.Vm → World L K
  queued r m = record w { kcps = write w.kcps p (record d.b { ctl = r.1 }); vm = m }

  queued-Addressed : (r : ℤ × K.Ctl) (m : L.Vm) → Addressed p c a cb (queued r m)
  queued-Addressed r m = record {
    b = record d.b { ctl = r.1 };
    held = load-write w.kcps p (record d.b { ctl = r.1 }) d.b d.held;
    user = d.user;
    callback = d.callback;
    address = d.address;
    block = d.block;
    content = d.content;
    size = d.size;
  }

  tail-Queued :
      (f : K.Ctl → ℤ × K.Ctl) (x : ℕ) (xs : Bytes) (m : L.Vm)
      → check_string t 3 (queued (f d.b.ctl) (L.push t (integer (f d.b.ctl).0) w.vm))
        ≡ ok (x ∷ xs) (queued (f d.b.ctl) m)
      → (w' : World L K) × (tail f w ≡ ok 1 w') × (w'.vm ≡ m) × Queued (f d.b.ctl).1 (x ∷ xs) w'
  unfolding push
  tail-Queued f x xs m arg =
      let (w', e, h) =
        set_address-Holds p c a cb x xs (queued (f d.b.ctl) m) (queued-Addressed (f d.b.ctl) m) in
      (
        w',
        rw (on_ctl-ok p d.b f w d.held, ◌>>=◌, arg, e),
        h.vm,
        record {
          kcb =
              ap (λ hp. load hp p) h.kcps
              ∙ load-write w.kcps p (record d.b { ctl = (f d.b.ctl).1 }) d.b d.held;
          at_block = h.at_block;
          callback = h.callback;
          content = h.content;
          kept = h.kept;
        },
      )

  -- A message and an address: the address is read from its own slot.
  three_arguments :
      (f : K.Ctl → ℤ × K.Ctl) (msg : Bytes) (x : ℕ) (xs : Bytes)
      → L.slots w.vm t ≡ kcp (some p) ∷ string msg ∷ string (x ∷ xs) ∷ []
      → (w' : World L K) × (and_then (check_string t 2 w) (λ _. tail f) ≡ ok 1 w')
        × (L.slots w'.vm t ≡ L.slots w.vm t ++ integer (f d.b.ctl).0 ∷ [])
        × Queued (f d.b.ctl).1 (x ∷ xs) w'
  three_arguments f msg x xs e =
      let m = L.push t (integer (f d.b.ctl).0) w.vm in
      let (w', eq, vm, q) =
        tail-Queued f x xs m
          (check_string-ok lua t 2 (x ∷ xs) (queued (f d.b.ctl) m) (rw (lua.slots-push, e) refl)) in
      (
        w',
        rw (check_string-ok lua t 1 msg w (rw e refl)) eq,
        ap (λ v. L.slots v t) vm ∙ lua.slots-push t _ w.vm,
        q,
      )

  -- No address: the slot where it is looked for holds the result that was just pushed.
  two_arguments :
      (f : K.Ctl → ℤ × K.Ctl) (msg : Bytes) (x : ℕ) (xs : Bytes)
      → L.slots w.vm t ≡ kcp (some p) ∷ string msg ∷ []
      → L.text_of (f d.b.ctl).0 ≡ x ∷ xs
      → (w' : World L K) × (and_then (check_string t 2 w) (λ _. tail f) ≡ ok 1 w')
        × (L.slots w'.vm t ≡ L.slots w.vm t ++ string (x ∷ xs) ∷ [])
        × Queued (f d.b.ctl).1 (x ∷ xs) w'
  two_arguments f msg x xs e text_is =
      let m = L.push t (integer (f d.b.ctl).0) w.vm in
      let slots : L.slots m t ≡ kcp (some p) ∷ string msg ∷ integer (f d.b.ctl).0 ∷ [] =
        lua.slots-push t _ w.vm ∙ ap (λ (vs : List Value). vs ++ integer (f d.b.ctl).0 ∷ []) e in
      let (m', is, slots') = lua.check_string-integer t 2 m (f d.b.ctl).0 (rw slots refl) in
      let (w', eq, vm, q) = tail-Queued f x xs m' (
        check_string-of t 3 (x ∷ xs) m' (queued (f d.b.ctl) m)
          (is ∙ ap (λ (s : Bytes). some (s, m')) text_is)) in
      (
        w',
        rw (check_string-ok lua t 1 msg w (rw e refl)) eq,
        ap (λ v. L.slots v t) vm ∙ slots' ∙ rw (slots, text_is, e) refl,
        q,
      )

  abbrev send_of : Bytes → K.Ctl → ℤ × K.Ctl
  send_of msg k = K.send k msg (int32 (pos (length msg)))

  abbrev input_of : Bytes → K.Ctl → ℤ × K.Ctl
  input_of msg k = K.input k msg (pos (length msg))

  lkcp_send-tail :
      (msg : Bytes) (rest : List Value)
      → L.slots w.vm t ≡ kcp (some p) ∷ string msg ∷ rest
      → lkcp_send t w ≡ and_then (check_string t 2 w) (λ _. tail (send_of msg))
  unfolding lkcp_send
  lkcp_send-tail msg rest e =
      guarded-ok t p c d.b _ w (rw e refl) d.held d.user
      ∙ rw (check_string-ok lua t 1 msg w (rw e refl))

  lkcp_input-tail :
      (msg : Bytes) (rest : List Value)
      → L.slots w.vm t ≡ kcp (some p) ∷ string msg ∷ rest
      → lkcp_input t w ≡ and_then (check_string t 2 w) (λ _. tail (input_of msg))
  unfolding lkcp_input
  lkcp_input-tail msg rest e =
      guarded-ok t p c d.b _ w (rw e refl) d.held d.user
      ∙ rw (check_string-ok lua t 1 msg w (rw e refl))

  -- On a connection whose address block has the size it is said to have, `lkcp_send` with a message
  -- and a non-empty address hands the message to the library, returns
  -- its code, and from then on the connection's packets go to that address: the address block has
  -- exactly its bytes and a NUL, whatever size the block before had, and no block is lost.
  pub lkcp_send_address :
      (msg : Bytes) (x : ℕ) (xs : Bytes)
      → L.slots w.vm t ≡ kcp (some p) ∷ string msg ∷ string (x ∷ xs) ∷ []
      → (w' : World L K) × (lkcp_send t w ≡ ok 1 w')
        × (L.slots w'.vm t ≡ L.slots w.vm t ++ integer (send_of msg d.b.ctl).0 ∷ [])
        × Queued (send_of msg d.b.ctl).1 (x ∷ xs) w'
  lkcp_send_address msg x xs e =
      let (w', eq, slots, q) = three_arguments (send_of msg) msg x xs e in
      (w', lkcp_send-tail msg (string (x ∷ xs) ∷ []) e ∙ eq, slots, q)

  -- On a connection whose address block has the size it is said to have, `lkcp_input` with a
  -- packet and a non-empty address hands the packet to the library, returns its code, and
  -- redirects the connection to that address, whose bytes and a NUL are what the block then holds;
  -- no block is lost.
  pub lkcp_input_address :
      (msg : Bytes) (x : ℕ) (xs : Bytes)
      → L.slots w.vm t ≡ kcp (some p) ∷ string msg ∷ string (x ∷ xs) ∷ []
      → (w' : World L K) × (lkcp_input t w ≡ ok 1 w')
        × (L.slots w'.vm t ≡ L.slots w.vm t ++ integer (input_of msg d.b.ctl).0 ∷ [])
        × Queued (input_of msg d.b.ctl).1 (x ∷ xs) w'
  lkcp_input_address msg x xs e =
      let (w', eq, slots, q) = three_arguments (input_of msg) msg x xs e in
      (w', lkcp_input-tail msg (string (x ∷ xs) ∷ []) e ∙ eq, slots, q)

  -- On a connection whose address block has the size it is said to have, `lkcp_send` without an
  -- address takes its own result for it, provided that the text of the result, a number, is not
  -- empty: the result is turned into a string, which is what Lua gets, and the connection's
  -- packets go to the bytes of that string.
  pub lkcp_send_no_address :
      (msg : Bytes) (x : ℕ) (xs : Bytes)
      → L.slots w.vm t ≡ kcp (some p) ∷ string msg ∷ []
      → L.text_of (send_of msg d.b.ctl).0 ≡ x ∷ xs
      → (w' : World L K) × (lkcp_send t w ≡ ok 1 w')
        × (L.slots w'.vm t ≡ L.slots w.vm t ++ string (x ∷ xs) ∷ [])
        × Queued (send_of msg d.b.ctl).1 (x ∷ xs) w'
  lkcp_send_no_address msg x xs e text_is =
      let (w', eq, slots, q) = two_arguments (send_of msg) msg x xs e text_is in
      (w', lkcp_send-tail msg [] e ∙ eq, slots, q)

  -- On a connection whose address block has the size it is said to have, `lkcp_input` without an
  -- address takes the result of the library's input for it, provided that its text is not empty:
  -- the connection's packets go to the bytes of that text, and Lua gets it as a string.
  pub lkcp_input_no_address :
      (msg : Bytes) (x : ℕ) (xs : Bytes)
      → L.slots w.vm t ≡ kcp (some p) ∷ string msg ∷ []
      → L.text_of (input_of msg d.b.ctl).0 ≡ x ∷ xs
      → (w' : World L K) × (lkcp_input t w ≡ ok 1 w')
        × (L.slots w'.vm t ≡ L.slots w.vm t ++ string (x ∷ xs) ∷ [])
        × Queued (input_of msg d.b.ctl).1 (x ∷ xs) w'
  lkcp_input_no_address msg x xs e text_is =
      let (w', eq, slots, q) = two_arguments (input_of msg) msg x xs e text_is in
      (w', lkcp_input-tail msg [] e ∙ eq, slots, q)
