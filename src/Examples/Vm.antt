-- ===== src/Examples/Vm.antt =====
-- A virtual machine that is its stacks, its references and its registry fields.
use mathlib.Core.List.{append_assoc}
use lua_kcp_skynet.Sender.{Packing}
use lua_kcp_skynet.Prelude.{
  ltb, length, ◌/◌, ◌^◌, ℕ, suc, ◌+◌, ◌-◌, ◌%◌, ◌≤◌, Bool, true, List, [], ◌∷◌, ◌++◌, Option, none,
  some, ◌≡◌, ◌≢◌, refl, sym, ap, ◌∙◌, arith, get_elem?, set, ◌==◌, if◌then◌else◌,
}
use lua_kcp_skynet.Prelude.Int.{ℤ, pos, negsuc}
use lua_kcp_skynet.Api.Lua.{
  Bytes, Value, nil, integer, string, function, Key, kcp_lua_recv_buffer, skynet_context, returned,
  dropped, LuaApi, IsLawful,
}

pub record Vm : Type 0 where
  pub stacks : ℕ → List Value
  pub refs : List (ℤ × Value)
  pub fields : Key → Value
  pub alive : ℕ → Bool

abbrev but_last : List Value → List Value
but_last [] = []
but_last (x ∷ []) = []
but_last (x ∷ y ∷ xs) = x ∷ but_last (y ∷ xs)

abbrev last_of : List Value → Value
last_of [] = nil
last_of (x ∷ []) = x
last_of (x ∷ y ∷ xs) = last_of (y ∷ xs)

-- No key is above the sum of all keys.
abbrev key_sum : List (ℤ × Value) → ℕ
key_sum [] = 0
key_sum ((pos k, v) ∷ refs) = k + key_sum refs
key_sum ((negsuc k, v) ∷ refs) = key_sum refs

abbrev on_stack : ℕ → (List Value → List Value) → Vm → Vm
on_stack t f m = record m { stacks = λ u. if u == t then f (m.stacks u) else m.stacks u }

abbrev refer : Value → Vm → ℤ × Vm
refer nil m = (negsuc 0, m)
refer v m =
    (pos (suc (key_sum m.refs)), record m { refs = (pos (suc (key_sum m.refs)), v) ∷ m.refs })

abbrev last_digit : ℤ → Bytes
last_digit (pos n) = (48 + n % 10) ∷ []
last_digit (negsuc n) = 45 ∷ (48 + (n + 1) % 10) ∷ []

abbrev as_text : ℕ → ℕ → Option Value → Vm → Option (Bytes × Vm)
as_text t i (some (string s)) m = some (s, m)
as_text t i (some (integer n)) m =
    some (last_digit n, on_stack t (λ xs. set xs i (string (last_digit n))) m)
as_text t i _ m = none

abbrev as_number : Value → Option ℤ
as_number (integer n) = some n
as_number _ = none

abbrev same_key : Key → Key → Bool
same_key kcp_lua_recv_buffer kcp_lua_recv_buffer = true
same_key skynet_context skynet_context = true
same_key _ _ = Bool.false

-- The last three values are a call and its two arguments.
abbrev after_pcall : (Value → Value → Value → Value) → List Value → List Value
after_pcall r [] = []
after_pcall r (f ∷ []) = f ∷ []
after_pcall r (f ∷ a ∷ []) = f ∷ a ∷ []
after_pcall r (f ∷ a ∷ b ∷ []) = r f a b ∷ []
after_pcall r (x ∷ f ∷ a ∷ b ∷ xs) = x ∷ after_pcall r (f ∷ a ∷ b ∷ xs)

-- string.pack(">I4s2", c, s), and an error message for a string that is too long.
abbrev pub pack_bytes : ℕ → Bytes → Bytes
pack_bytes c s =
    if ltb (length s) 65536
    then (c / 2 ^ 24 % 256)
      ∷ (c / 2 ^ 16 % 256)
      ∷ (c / 2 ^ 8 % 256)
      ∷ (c % 256)
      ∷ (length s / 256)
      ∷ (length s % 256)
      ∷ s
    else 98 ∷ 97 ∷ 100 ∷ []

abbrev packed : Value → Value → Value → Value
packed f (integer (pos c)) (string s) = string (pack_bytes c s)
packed f _ _ = nil

abbrev pub machine : LuaApi
machine = record {
  Vm = Vm;
  slots = λ m t. m.stacks t;
  references = λ m. m.refs;
  field = λ m k. m.fields k;
  is_alive = λ m t. m.alive t;
  push = λ t v m. on_stack t (λ xs. xs ++ v ∷ []) m;
  pop = λ t m. on_stack t but_last m;
  set_field = λ t k m.
      on_stack t but_last
        (record m { fields = λ j. if same_key j k then last_of (m.stacks t) else m.fields j });
  to_integer = as_number;
  text_of = last_digit;
  check_string = λ t i m. as_text t (i - 1) (get_elem? (m.stacks t) (i - 1)) m;
  new_reference = λ t m. refer (last_of (m.stacks t)) (on_stack t but_last m);
  drop_reference = λ r m. record m { refs = dropped r m.refs };
  call = λ t m. returned (on_stack t (λ xs. but_last (but_last xs)) m);
  new_state =
      λ code. record { stacks = λ t. []; refs = []; fields = λ k. nil; alive = λ t. t == 0 };
  pack_output = λ m. function 0;
  pcall = λ t m. on_stack t (after_pcall packed) m;
  result = packed;
}

but_last-append : (xs : List Value) (v : Value) → but_last (xs ++ v ∷ []) ≡ xs
but_last-append [] v = refl
but_last-append (x ∷ []) v = refl
but_last-append (x ∷ y ∷ xs) v = ap (λ (t : List Value). x ∷ t) (but_last-append (y ∷ xs) v)

last_of-append : (xs : List Value) (v : Value) → last_of (xs ++ v ∷ []) ≡ v
last_of-append [] v = refl
last_of-append (x ∷ []) v = refl
last_of-append (x ∷ y ∷ xs) v = last_of-append (y ∷ xs) v

but_last-append_two : (xs : List Value) (v u : Value) → but_last (but_last (xs ++ v ∷ u ∷ [])) ≡ xs
but_last-append_two xs v u =
    ap but_last
      (ap but_last (sym (append_assoc xs (v ∷ []) (u ∷ []))) ∙ but_last-append (xs ++ v ∷ []) u)
    ∙ but_last-append xs v

fresh_key : (n : ℕ) (refs : List (ℤ × Value)) → key_sum refs ≤ n → dropped (pos (suc n)) refs ≡ refs
fresh_key n [] h = refl
fresh_key n ((pos k, v) ∷ refs) h =
    let differ : (k == suc n) ≡ Bool.false = ground arith in
    rw (differ, fresh_key n refs (omega arith))
fresh_key n ((negsuc k, v) ∷ refs) h = rw (fresh_key n refs h)

refer-fresh :
    (v : Value) (m : Vm)
    → v ≢ nil
    → (n : ℕ) × ((refer v m).0 ≡ pos (suc n))
      × ((refer v m).1.refs ≡ (pos (suc n), v) ∷ m.refs)
      × (dropped (pos (suc n)) m.refs ≡ m.refs)
refer-fresh nil m d = absurd (d refl)
refer-fresh v m d = (key_sum m.refs, refl, refl, fresh_key (key_sum m.refs) m.refs (omega arith))

refer-stacks : (v : Value) (m : Vm) → (refer v m).1.stacks ≡ m.stacks
refer-stacks nil m = refl
refer-stacks v m = refl

as_text-refs :
    (t i : ℕ) (v : Option Value) (m m' : Vm) (s : Bytes)
    → as_text t i v m ≡ some (s, m')
    → m'.refs ≡ m.refs
as_text-refs t i none m m' s e = cc
as_text-refs t i (some nil) m m' s e = cc
as_text-refs t i (some (integer n)) m m' s e = ground arith
as_text-refs t i (some v) m m' s e = ground arith

on_stack-at :
    (t : ℕ) (f : List Value → List Value) (m : Vm) → (on_stack t f m).stacks t ≡ f (m.stacks t)
on_stack-at t f m = ground arith

after_pcall-append :
    (r : Value → Value → Value → Value) (xs : List Value) (f a b : Value)
    → after_pcall r (xs ++ f ∷ a ∷ b ∷ []) ≡ xs ++ r f a b ∷ []
after_pcall-append r [] f a b = refl
after_pcall-append r (x ∷ []) f a b = refl
after_pcall-append r (x ∷ y ∷ []) f a b = refl
after_pcall-append r (x ∷ y ∷ z ∷ []) f a b = refl
after_pcall-append r (x ∷ y ∷ z ∷ u ∷ xs) f a b =
    ap (λ (t : List Value). x ∷ t) (after_pcall-append r (y ∷ z ∷ u ∷ xs) f a b)

same_key_self : (k : Key) → same_key k k ≡ true
same_key_self kcp_lua_recv_buffer = refl
same_key_self skynet_context = refl

pub machine-IsLawful : IsLawful machine
machine-IsLawful = record {
  slots-push = λ t v m. on_stack-at t (λ xs. xs ++ v ∷ []) m;
  references-push = λ t v m. refl;
  field-push = λ t v m k. refl;
  slots-pop = λ t m xs v e. on_stack-at t but_last m ∙ ap but_last e ∙ but_last-append xs v;
  references-pop = λ t m. refl;
  field-pop = λ t m k. refl;
  to_integer-integer = λ n. refl;
  check_string-string = λ t i m s e. rw (suc_sub i, e);
  check_string-function = λ t i m f e. rw (suc_sub i, e);
  check_string-integer = λ t i m n e. (
    on_stack t (λ xs. set xs i (string (last_digit n))) m,
    rw (suc_sub i, e),
    on_stack-at t (λ xs. set xs i (string (last_digit n))) m,
  );
  check_string-keeps =
      λ t i m {s} {m'} e. as_text-refs t (i - 1) (get_elem? (m.stacks t) (i - 1)) m m' s e;
  new_reference-slots = λ t m xs v e.
      ap (λ (f : ℕ → List Value). f t) (refer-stacks (last_of (m.stacks t)) (on_stack t but_last m))
      ∙ on_stack-at t but_last m
      ∙ ap but_last e
      ∙ but_last-append xs v;
  new_reference-references = λ t m xs v e d.
      let last : last_of (m.stacks t) ≡ v = ap last_of e ∙ last_of-append xs v in
      rw last (refer-fresh v (on_stack t but_last m) d);
  new_reference-nil = λ t m xs e.
      let last : last_of (m.stacks t) ≡ nil = ap last_of e ∙ last_of-append xs nil in
      rw last (refl, refl);
  references-drop = λ r m. refl;
  slots-drop = λ r m t. refl;
  call-slots = λ t m m' xs f a e r.
      let is : on_stack t (λ ys. but_last (but_last ys)) m ≡ m' = returned-injective r in
      ap (λ (n : Vm). n.stacks t) (sym is)
      ∙ on_stack-at t (λ ys. but_last (but_last ys)) m
      ∙ ap (λ (ys : List Value). but_last (but_last ys)) e
      ∙ but_last-append_two xs f a;
  call-references = λ t m m' r. ap (λ (n : Vm). n.refs) (sym (returned-injective r));
  call-references_failed = λ t m m' r. cc;
  slots-set_field = λ t k m xs v e. on_stack-at t but_last m ∙ ap but_last e ∙ but_last-append xs v;
  field-set_field = λ t k m xs v e. rw (same_key_self k) (ap last_of e ∙ last_of-append xs v);
  references-set_field = λ t k m. refl;
  slots-new_state = λ code. refl;
  slots-pcall = λ t m xs f a b e.
      on_stack-at t (after_pcall packed) m
      ∙ ap (after_pcall packed) e
      ∙ after_pcall-append packed xs f a b;
  pack_output-push = λ t v m. refl;
  pack_output-pop = λ t m. refl;
  pack_output-pcall = λ t m. refl;
}
  where
    suc_sub : (i : ℕ) → suc i - 1 ≡ i
    suc_sub i = omega arith

    returned-injective : {m m' : Vm} → returned m ≡ returned m' → m ≡ m'
    returned-injective e = cc

abbrev pub packing : Packing machine
packing = record { f = 0; result = pack_bytes; leaves = λ conv buf. refl }
