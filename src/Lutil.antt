-- ===== src/Lutil.antt =====
-- lua-kcp/lutil.c: the clock, the pause, and numbers as four bytes in network order. Each function
-- is modelled from the value that it takes from the Lua stack to the value that it pushes.
pub mod Bytes
pub mod Open
pub mod Clock
use Prim.Native.Nat.{bit_or}
use lua_kcp_skynet.Prelude.{
  ℕ, zero, suc, ◌+◌, ◌*◌, ◌/◌, ◌%◌, ◌^◌, List, [], ◌∷◌, Option, none, some,
}
use lua_kcp_skynet.Prelude.Int.{ℤ}
use lua_kcp_skynet.Prelude.Word.{u32, shl32, sub32}

infixl 5 ◌>>=◌
abbrev ◌>>=◌ : {A B : Type 0} → Option A → (A → Option B) → Option B
none >>= f = none
some a >>= f = f a

-- `s[i]` of a Lua string: a NUL follows its bytes, and a read past that is undefined, `none`.
abbrev pub char_at : List ℕ → ℕ → Option ℕ
char_at [] zero = some 0
char_at [] (suc i) = none
char_at (b ∷ s) zero = some b
char_at (b ∷ s) (suc i) = char_at s i

-- From the clock's reading. The sum is a `uint64_t`, and `& 0x7fffffff` keeps 31 bits.
unfoldable pub l_gettimeofday : (tv_sec tv_usec : ℕ) → ℕ
l_gettimeofday tv_sec tv_usec =
    ((tv_sec * 1000 % 2 ^ 64 + tv_usec / 1000) % 2 ^ 64) % 2 ^ 31 % 2 ^ 32

-- To the argument of `usleep`.
unfoldable pub l_isleep : ℤ → ℕ
l_isleep n =
    let millisecond = u32 n in
    sub32 (sub32 (shl32 millisecond 10) (shl32 millisecond 4)) (shl32 millisecond 3)

unfoldable pub l_netbytes2uint32 : List ℕ → Option ℕ
l_netbytes2uint32 s = do
  s0 ← char_at s 0
  s1 ← char_at s 1
  s2 ← char_at s 2
  s3 ← char_at s 3
  some (bit_or (bit_or (bit_or (shl32 s0 24) (shl32 s1 16)) (shl32 s2 8)) s3)

unfoldable pub l_uint322netbytes : ℤ → List ℕ
l_uint322netbytes n =
    let i = u32 n in (i / 2 ^ 24 % 256) ∷ (i / 2 ^ 16 % 256) ∷ (i / 2 ^ 8 % 256) ∷ (i % 256) ∷ []
