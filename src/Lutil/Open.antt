-- ===== src/Lutil/Open.antt =====
-- `luaopen_lutil`: the functions of lua-kcp/lutil.c under their names.
use lua_kcp_skynet.Prelude.{[], ◌∷◌, Option, some, ◌≡◌, ◌↔◌, inl, inr, refl, sym, ap, ◌∙◌}
use lua_kcp_skynet.Api.Lua.{Bytes}
use lua_kcp_skynet.Machine.{text}
use lua_kcp_skynet.Registry.{Reg, new_lib, Listed, new_lib-Listed}

pub data Function : Type 0 where
  l_gettimeofday l_isleep l_netbytes2uint32 l_uint322netbytes : Function

abbrev pub libs : Reg Function
libs =
    (text "gettimeofday", l_gettimeofday)
    ∷ (text "isleep", l_isleep)
    ∷ (text "netbytes2uint32", l_netbytes2uint32)
    ∷ (text "uint322netbytes", l_uint322netbytes)
    ∷ []

-- The table that it returns.
unfoldable pub luaopen_lutil : Bytes → Option Function
luaopen_lutil = new_lib libs

abbrev pub name_of : Function → Bytes
name_of l_gettimeofday = text "gettimeofday"
name_of l_isleep = text "isleep"
name_of l_netbytes2uint32 = text "netbytes2uint32"
name_of l_uint322netbytes = text "uint322netbytes"

named : (f : Function) → new_lib libs (name_of f) ≡ some f
named l_gettimeofday = refl
named l_isleep = refl
named l_netbytes2uint32 = refl
named l_uint322netbytes = refl

entry_of : (name : Bytes) (f : Function) → Listed libs name f → name ≡ name_of f
entry_of name f (inl (n, e)) = n ∙ ap name_of (sym e)
entry_of name f (inr (inl (n, e))) = n ∙ ap name_of (sym e)
entry_of name f (inr (inr (inl (n, e)))) = n ∙ ap name_of (sym e)
entry_of name f (inr (inr (inr (inl (n, e))))) = n ∙ ap name_of (sym e)
entry_of name f (inr (inr (inr (inr x)))) = elim x [ ]

-- A script finds a function in the library exactly if it asks for it by its own name.
pub luaopen_lutil_iff :
    (name : Bytes) (f : Function) → (luaopen_lutil name ≡ some f) ↔ (name ≡ name_of f)
unfolding luaopen_lutil
luaopen_lutil_iff name f =
    (λ e. entry_of name f (new_lib-Listed libs name f e), λ n. ap (new_lib libs) n ∙ named f)
