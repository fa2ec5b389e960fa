-- ===== src/Lkcp/Output/Drive.antt =====
-- A run of the library in lkcp.c, packet by packet, with an output function.
use mathlib.Core.List.{append_assoc}
use lua_kcp_skynet.Prelude.{
  ◌⊎◌, inl, inr, ◌+◌, List, [], ◌∷◌, ◌++◌, leb, length, if◌then◌else◌, get_elem?-append_last, arith,
  ◌-◌, length-append, true, ℕ, some, ◌≡◌, refl, ◌∙◌, ap, ltb,
}
use lua_kcp_skynet.Prelude.Int.{ℤ, pos}
use lua_kcp_skynet.Prelude.Word.{int64_of_u64}
use lua_kcp_skynet.Heap.{Ptr, load}
use lua_kcp_skynet.Outcome.{
  Outcome, ok, raised, fault, failed_call, Cmd, pure, and_then, ◌>>=◌, ◌>>◌,
}
use lua_kcp_skynet.Outcome.Rules.{Ends, returns, raises, and_then_assoc, mono, bind}
use lua_kcp_skynet.Api.Lua.{
  nil, recv_buffer, light, other, Bytes, Value, integer, string, function, kcp, LuaApi, referred,
  Called, returned, failed,
}
use lua_kcp_skynet.Api.Lua
use lua_kcp_skynet.Api.Kcp.{KcpApi, Run, finish, emit}
use lua_kcp_skynet.Machine.{
  on_ctl, output, drive, load_callback, load_kcp, store_kcp, raw_get, is_function, call, push,
}
use lua_kcp_skynet.Lkcp.{Callback, World, call_output, output_on, kcp_output_callback}
use lua_kcp_skynet.Lkcp.Safety.Sound.{Open, Open-Frame, Open-Connected}

-- Two continuations that agree wherever the first part can end are one.
and_then-cong :
    {W A B : Type 0} {P : A → W → Type 0} {E : W → Type 0} {m : Outcome W A} {k k' : A → Cmd W B}
    → Ends P E m
    → ((a : A) (w : W) → P a w → k a w ≡ k' a w)
    → and_then m k ≡ and_then m k'
and_then-cong (returns p) same = same _ _ p
and_then-cong (raises e) same = refl

module _ {L : LuaApi} {K : KcpApi} where
  -- One call of the Lua function f on a packet, on thread t. The stack has room for that many slots.
  unfoldable pub hand : (room t f : ℕ) → Bytes → Cmd (World L K) (Unit {0})
  hand room t f buf w =
      if leb (length (L.slots w.vm t) + 2) room
      then (elim (L.call t (L.push t (string buf) (L.push t (function f) w.vm))) [
        | returned m ↦ ok tt (record w { vm = m })
        | failed m ↦ raised failed_call (record w { vm = m })
      ])
      else fault

  -- A run of the library with one such call for each packet, in order, each of which is told that the
  -- packet is out.
  pub deliver : (room t f : ℕ) → Ptr → Run K.Ctl → Cmd (World L K) (Unit {0})
  deliver room t f p (finish k) = on_ctl p (λ _. (tt, k))
  deliver room t f p (emit buf k next) = do
    on_ctl p (λ _. (tt, k))
    hand room t f buf
    deliver room t f p (next (pos 0))

Called-cases :
    {Vm : Type 0} (o : Called Vm) → ((m : Vm) × (o ≡ returned m)) ⊎ ((m : Vm) × (o ≡ failed m))
Called-cases (returned m) = inl (m, refl)
Called-cases (failed m) = inr (m, refl)

-- The connection p is open, its callback block holds cb, and thread t has the stack xs; the reference
-- of cb stands for the value v.
pub record Running {L : LuaApi} {K : KcpApi} (p c t : Ptr) (cb : Callback) (v : Value)
    (xs : List Value) (w : World L K) : Type 0 where
  pub open_pc : Open p c w
  pub holds : load w.callbacks c ≡ some cb
  pub stack : L.slots w.vm t ≡ xs
  pub value : referred (int64_of_u64 cb.handle) (L.references w.vm) ≡ v

has_room : (xs ys : List Value) → ys ≡ xs → leb (length ys + 2) (length xs + 2) ≡ true
has_room xs ys e = let n : length ys ≡ length xs = ap length e in ground arith

module _ {L : LuaApi} (lua : Lua.IsLawful L) (t : ℕ) where
  pushed :
      (f : ℕ) (xs : List Value) (buf : Bytes) (m : L.Vm)
      → L.slots m t ≡ xs
      → L.slots (L.push t (string buf) (L.push t (function f) m)) t
        ≡ xs ++ function f ∷ string buf ∷ []
  pushed f xs buf m e = simp (lua.slots-push, e, append_assoc)

module _ {L : LuaApi} {K : KcpApi} (lua : Lua.IsLawful L) (p c t : Ptr) (cb : Callback)
    (on_t : cb.el ≡ some t) (positive : ltb 0 cb.handle ≡ true) where
  on_ctl-Running :
      (v : Value) (xs : List Value) (k : K.Ctl) (w : World L K)
      → Running p c t cb v xs w
      → Ends (λ _. Running p c t cb v xs) (Running p c t cb v xs) (on_ctl p (λ _. (tt, k)) w)
  unfolding on_ctl load_kcp store_kcp
  on_ctl-Running v xs k w i =
      let (b, e, u, o) = (Open-Connected p c).block w i.open_pc in
      rw (e, ◌>>=◌)
        (returns (record {
          open_pc = (Open-Frame p c).on_block w b k e i.open_pc;
          holds = i.holds;
          stack = i.stack;
          value = i.value;
        }))

  after_call :
      (f : ℕ) (xs : List Value) (buf : Bytes) (w : World L K)
      → Running p c t cb (function f) xs w
      → Ends
          (λ _. Running p c t cb (function f) xs)
          (λ _. Unit {0})
          (hand (length xs + 2) t f buf w)
  unfolding hand
  after_call f xs buf w i =
      let m2 = L.push t (string buf) (L.push t (function f) w.vm) in
      let kept : L.references m2 ≡ L.references w.vm = simp lua.references-push in
      elim (Called-cases (L.call t m2)) [
        | inl (m', e) ↦
            let same : L.references m' ≡ L.references w.vm = lua.call-references t m2 m' e ∙ kept in
            rw (has_room xs (L.slots w.vm t) i.stack, e)
              (returns (record {
                open_pc = (Open-Frame p c).on_vm w m' same i.open_pc;
                holds = i.holds;
                stack =
                    lua.call-slots t m2 m' xs (function f) (string buf)
                      (pushed lua t f xs buf w.vm i.stack) e;
                value = ap (referred (int64_of_u64 cb.handle)) same ∙ i.value;
              }))
        | inr (m', e) ↦ rw (has_room xs (L.slots w.vm t) i.stack, e) (raises tt)
      ]

  output-hand :
      (f : ℕ) (xs : List Value) (buf : Bytes) (w : World L K)
      → Running p c t cb (function f) xs w
      → output kcp_output_callback buf p w
        ≡ and_then (hand (length xs + 2) t f buf w) (λ _. pure (pos 0))
  unfolding output load_kcp kcp_output_callback load_callback output_on raw_get is_function
      call_output call push hand
  output-hand f xs buf w i =
      let (b, e, u, o) = (Open-Connected p c).block w i.open_pc in
      let m1 = L.push t (function f) w.vm in
      let slots1 : L.slots m1 t ≡ xs ++ function f ∷ [] =
        lua.slots-push t (function f) w.vm
        ∙ ap (λ (ys : List Value). ys ++ function f ∷ []) i.stack in
      let top : length (xs ++ function f ∷ []) - 1 ≡ length xs =
        omega (arith, length-append {0} xs (function f ∷ [])) in
      rw
        (
          e,
          u,
          o,
          ◌>>=◌,
          i.holds,
          on_t,
          positive,
          i.value,
          ◌>>=◌,
          slots1,
          top,
          get_elem?-append_last xs (function f),
          ◌>>=◌,
          has_room xs (L.slots w.vm t) i.stack,
          call_output,
        )
        refl

  pub drive-deliver :
      (f : ℕ) (xs : List Value) (run : Run K.Ctl) (w : World L K)
      → Running p c t cb (function f) xs w
      → drive kcp_output_callback p run w ≡ deliver (length xs + 2) t f p run w
  unfolding drive deliver
  drive-deliver f xs (finish k) w i = refl
  drive-deliver f xs (emit buf k next) w i =
      and_then-cong (on_ctl-Running (function f) xs k w i) λ _ w1 i1.
        ap (λ (o : Outcome (World L K) ℤ). and_then o (λ r. drive kcp_output_callback p (next r)))
          (output-hand f xs buf w1 i1)
        ∙ and_then_assoc (hand (length xs + 2) t f buf w1) (λ _. pure (pos 0))
            (λ r. drive kcp_output_callback p (next r))
        ∙ and_then-cong (after_call f xs buf w1 i1)
            (λ _ w2 i2. drive-deliver f xs (next (pos 0)) w2 i2)

  -- Such a run ends with the stack as it was, and nowhere runs out of room.
  pub deliver-Running :
      (f : ℕ) (xs : List Value) (run : Run K.Ctl) (w : World L K)
      → Running p c t cb (function f) xs w
      → Ends
          (λ _. Running p c t cb (function f) xs)
          (λ _. Unit {0})
          (deliver (length xs + 2) t f p run w)
  unfolding deliver
  deliver-Running f xs (finish k) w i =
      mono (on_ctl-Running (function f) xs k w i) (λ _ w' x. x) (λ _ _. tt)
  deliver-Running f xs (emit buf k next) w i =
      bind (mono (on_ctl-Running (function f) xs k w i) (λ _ w' x. x) (λ _ _. tt)) (λ _ w1 i1.
        bind (after_call f xs buf w1 i1) (λ _ w2 i2. deliver-Running f xs (next (pos 0)) w2 i2))
