-- ===== src/Api/Lua.antt =====
-- The C API of Lua 5.3, as far as the bindings use it. A virtual machine is seen through the
-- stack of each of its threads, the references that `luaL_ref` gave out, and named registry fields.
use lua_kcp_skynet.Prelude.{
  ℕ, suc, ◌≡◌, ◌≢◌, List, [], ◌∷◌, ◌++◌, Option, none, some, get_elem?, set, ◌==◌, Bool,
  if◌then◌else◌,
}
use lua_kcp_skynet.Prelude.Int.{ℤ, pos, negsuc}
use lua_kcp_skynet.Heap.{Ptr}

abbrev pub Bytes : Type 0
Bytes = List ℕ

-- A Lua value. A userdata of metatable "kcp_meta" is shown with the `ikcpcb *` that its block
-- holds, `none` for NULL; the one of metatable "recv_buffer" holds the receive buffer.
pub data Value : Type 0 where
  nil : Value
  integer : ℤ → Value
  string : Bytes → Value
  function : ℕ → Value
  kcp : Option Ptr → Value
  recv_buffer : Value
  light : Option Ptr → Value
  other : ℕ → Value

-- The string keys of the registry that the bindings read and write.
pub data Key : Type 0 where
  kcp_lua_recv_buffer skynet_context : Key

-- A protected or unprotected call of a Lua function ends by a return or by an error.
pub data Called (Vm : Type 0) : Type 0 where
  returned : Vm → Called Vm
  failed : Vm → Called Vm

abbrev pub same_ref : ℤ → ℤ → Bool
same_ref (pos m) (pos n) = m == n
same_ref (pos m) (negsuc n) = Bool.false
same_ref (negsuc m) (pos n) = Bool.false
same_ref (negsuc m) (negsuc n) = m == n

-- The value that a reference stands for; `nil` if there is none.
abbrev pub referred : ℤ → List (ℤ × Value) → Value
referred r [] = nil
referred r ((k, v) ∷ refs) = if same_ref k r then v else referred r refs

abbrev pub dropped : ℤ → List (ℤ × Value) → List (ℤ × Value)
dropped r [] = []
dropped r ((k, v) ∷ refs) =
    let rest = dropped r refs in if same_ref k r then rest else (k, v) ∷ rest

pub record LuaApi : Type 1 where
  pub Vm : Type 0
  -- The stack of a thread, slot 1 first; the live references; a field of the registry.
  pub slots : Vm → ℕ → List Value
  pub references : Vm → List (ℤ × Value)
  pub field : Vm → Key → Value
  -- Whether a thread has not been collected yet.
  pub is_alive : Vm → ℕ → Bool
  -- lua_pushinteger and the like, lua_pop(L, 1), lua_setfield
  pub push : ℕ → Value → Vm → Vm
  pub pop : ℕ → Vm → Vm
  pub set_field : ℕ → Key → Vm → Vm
  -- luaL_checkinteger and luaL_checklstring on a value; `none` raises an error.
  pub to_integer : Value → Option ℤ
  pub text_of : ℤ → Bytes
  pub check_string : ℕ → ℕ → Vm → Option (Bytes × Vm)
  -- luaL_ref and luaL_unref in the registry; lua_call(L, 1, 0)
  pub new_reference : ℕ → Vm → ℤ × Vm
  pub drop_reference : ℤ → Vm → Vm
  pub call : ℕ → Vm → Called Vm
  -- lua_getglobal(LL, "pack_output"), and lua_pcall(LL, 2, 1, 0): `result f a b` is what the call
  -- f(a, b) leaves on the stack, its result or, if it fails, the error value.
  pub pack_output : Vm → Value
  pub pcall : ℕ → Vm → Vm
  -- luaL_newstate, luaL_openlibs and luaL_dostring with the given text, one after another
  pub new_state : Bytes → Vm
  pub result : Value → Value → Value → Value

-- What the manual says of them. `call` runs a function of the application, which is taken to
-- make no references of its own and to leave the bindings' alone.
pub record IsLawful (L : LuaApi) : Type 0 where
  pub slots-push : (t : ℕ) (v : Value) (m : L.Vm) → L.slots (L.push t v m) t ≡ L.slots m t ++ v ∷ []
  pub references-push :
      (t : ℕ) (v : Value) (m : L.Vm) → L.references (L.push t v m) ≡ L.references m
  pub field-push : (t : ℕ) (v : Value) (m : L.Vm) (k : Key) → L.field (L.push t v m) k ≡ L.field m k
  pub slots-pop :
      (t : ℕ) (m : L.Vm) (xs : List Value) (v : Value)
      → L.slots m t ≡ xs ++ v ∷ []
      → L.slots (L.pop t m) t ≡ xs
  pub references-pop : (t : ℕ) (m : L.Vm) → L.references (L.pop t m) ≡ L.references m
  pub field-pop : (t : ℕ) (m : L.Vm) (k : Key) → L.field (L.pop t m) k ≡ L.field m k
  pub to_integer-integer : (n : ℤ) → L.to_integer (integer n) ≡ some n
  pub check_string-string :
      (t i : ℕ) (m : L.Vm) (s : Bytes)
      → get_elem? (L.slots m t) i ≡ some (string s)
      → L.check_string t (suc i) m ≡ some (s, m)
  -- A function is no string.
  pub check_string-function :
      (t i : ℕ) (m : L.Vm) (f : ℕ)
      → get_elem? (L.slots m t) i ≡ some (function f)
      → L.check_string t (suc i) m ≡ none
  -- A number in the slot is replaced by its text.
  pub check_string-integer :
      (t i : ℕ) (m : L.Vm) (n : ℤ)
      → get_elem? (L.slots m t) i ≡ some (integer n)
      → (m' : L.Vm) × (L.check_string t (suc i) m ≡ some (L.text_of n, m'))
        × (L.slots m' t ≡ set (L.slots m t) i (string (L.text_of n)))
  pub check_string-keeps :
      (t i : ℕ) (m : L.Vm) {s : Bytes} {m' : L.Vm}
      → L.check_string t i m ≡ some (s, m')
      → L.references m' ≡ L.references m
  pub new_reference-slots :
      (t : ℕ) (m : L.Vm) (xs : List Value) (v : Value)
      → L.slots m t ≡ xs ++ v ∷ []
      → L.slots (L.new_reference t m).1 t ≡ xs
  pub new_reference-references :
      (t : ℕ) (m : L.Vm) (xs : List Value) (v : Value)
      → L.slots m t ≡ xs ++ v ∷ []
      → v ≢ nil
      → (n : ℕ) × ((L.new_reference t m).0 ≡ pos (suc n))
        × (L.references (L.new_reference t m).1 ≡ (pos (suc n), v) ∷ L.references m)
        × (dropped (pos (suc n)) (L.references m) ≡ L.references m)
  pub new_reference-nil :
      (t : ℕ) (m : L.Vm) (xs : List Value)
      → L.slots m t ≡ xs ++ nil ∷ []
      → ((L.new_reference t m).0 ≡ negsuc 0)
        × (L.references (L.new_reference t m).1 ≡ L.references m)
  pub references-drop :
      (r : ℤ) (m : L.Vm) → L.references (L.drop_reference r m) ≡ dropped r (L.references m)
  pub slots-drop : (r : ℤ) (m : L.Vm) (t : ℕ) → L.slots (L.drop_reference r m) t ≡ L.slots m t
  pub call-slots :
      (t : ℕ) (m m' : L.Vm) (xs : List Value) (f a : Value)
      → L.slots m t ≡ xs ++ f ∷ a ∷ []
      → L.call t m ≡ returned m'
      → L.slots m' t ≡ xs
  pub call-references :
      (t : ℕ) (m m' : L.Vm) → L.call t m ≡ returned m' → L.references m' ≡ L.references m
  pub call-references_failed :
      (t : ℕ) (m m' : L.Vm) → L.call t m ≡ failed m' → L.references m' ≡ L.references m
  pub slots-set_field :
      (t : ℕ) (k : Key) (m : L.Vm) (xs : List Value) (v : Value)
      → L.slots m t ≡ xs ++ v ∷ []
      → L.slots (L.set_field t k m) t ≡ xs
  pub field-set_field :
      (t : ℕ) (k : Key) (m : L.Vm) (xs : List Value) (v : Value)
      → L.slots m t ≡ xs ++ v ∷ []
      → L.field (L.set_field t k m) k ≡ v
  pub references-set_field :
      (t : ℕ) (k : Key) (m : L.Vm) → L.references (L.set_field t k m) ≡ L.references m
  pub slots-new_state : (code : Bytes) → L.slots (L.new_state code) 0 ≡ []
  pub slots-pcall :
      (t : ℕ) (m : L.Vm) (xs : List Value) (f a b : Value)
      → L.slots m t ≡ xs ++ f ∷ a ∷ b ∷ []
      → L.slots (L.pcall t m) t ≡ xs ++ L.result f a b ∷ []
  pub pack_output-push :
      (t : ℕ) (v : Value) (m : L.Vm) → L.pack_output (L.push t v m) ≡ L.pack_output m
  pub pack_output-pop : (t : ℕ) (m : L.Vm) → L.pack_output (L.pop t m) ≡ L.pack_output m
  pub pack_output-pcall : (t : ℕ) (m : L.Vm) → L.pack_output (L.pcall t m) ≡ L.pack_output m
