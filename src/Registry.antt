-- ===== src/Registry.antt =====
-- `luaL_newlib` and `luaL_setfuncs` on an array of `luaL_Reg`: the table that they fill, as the
-- function that a script finds under a name.
use lua_kcp_skynet.Prelude.{
  Bool, true, false, List, [], ◌∷◌, Option, none, some, ◌≡◌, ◌⊎◌, inl, inr, ◌&&◌, ◌==◌,
  if◌then◌else◌, Bool-cases, Option-cases, refl, sym, arith,
}
use lua_kcp_skynet.Api.Lua.{Bytes}

-- The array up to its `{NULL, NULL}`.
abbrev pub Reg : Type 0 → Type 0
Reg F = List (Bytes × F)

abbrev pub same_name : Bytes → Bytes → Bool
same_name [] [] = true
same_name [] (b ∷ bs) = false
same_name (a ∷ as') [] = false
same_name (a ∷ as') (b ∷ bs) = (a == b) && same_name as' bs

-- The entries are set in order, so that a later one replaces an earlier one of its name.
abbrev pub new_lib : {F : Type 0} → Reg F → Bytes → Option F
new_lib [] name = none
new_lib ((k, f) ∷ reg) name = elim (new_lib reg name) [
  | some g ↦ some g
  | none ↦ if same_name k name then some f else none
]

same_name-eq : (a b : Bytes) → same_name a b ≡ true → a ≡ b
same_name-eq [] [] h = refl
same_name-eq [] (b ∷ bs) h = cc
same_name-eq (a ∷ as') [] h = cc
same_name-eq (a ∷ as') (b ∷ bs) h = ground (arith, same_name-eq as' bs)

-- The array has an entry of that name and that function.
abbrev pub Listed : {F : Type 0} → Reg F → Bytes → F → Type 0
Listed [] name f = ⊥
Listed ((k, g) ∷ reg) name f = ((name ≡ k) × (f ≡ g)) ⊎ Listed reg name f

module _ {F : Type 0} where
  pub new_lib-Listed :
      (reg : Reg F) (name : Bytes) (f : F) → new_lib reg name ≡ some f → Listed reg name f
  new_lib-Listed [] name f h = cc
  new_lib-Listed ((k, g) ∷ reg) name f h = elim (Option-cases (new_lib reg name)) [
    | inl e ↦ elim (Bool-cases (same_name k name)) [
      | inl s ↦ inl (sym (same_name-eq k name s), ground arith)
      | inr d ↦ absurd (ground arith)
    ]
    | inr (g', e) ↦ inr (new_lib-Listed reg name f (ground arith))
  ]
