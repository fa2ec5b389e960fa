-- ===== src/Prelude/Word.antt =====
-- C's integer conversions. An unsigned word is a number below its modulus; a signed one is the
-- integer that it stands for. A conversion to a narrower type keeps the low bits.
use Prim.Native.Nat.{ℕ, ◌+◌, ◌-◌, ◌%◌, ◌*◌, ◌/◌, ◌^◌, ◌<◌}
use mathlib.Core.Path.{◌≡◌}
use native.Mathlib.Omega.{arith}
use lua_kcp_skynet.Prelude.Tests.{ltb, if◌then◌else◌}
use lua_kcp_skynet.Prelude.Int.{ℤ, pos, negsuc}

-- The two's complement pattern of `z` in words of modulus `m`.
abbrev pub wrap : ℕ → ℤ → ℕ
wrap m (pos n) = n % m
wrap m (negsuc n) = m - 1 - n % m

-- The integer that a pattern below `m` stands for.
abbrev pub signed : ℕ → ℕ → ℤ
signed m w = if ltb w (m / 2) then pos w else negsuc (m - 1 - w)

abbrev pub u32 : ℤ → ℕ
u32 z = wrap (2 ^ 32) z

abbrev pub u64 : ℤ → ℕ
u64 z = wrap (2 ^ 64) z

abbrev pub int32 : ℤ → ℤ
int32 z = signed (2 ^ 32) (u32 z)

-- An `int` made of a `uint64_t`.
abbrev pub int_of_u64 : ℕ → ℤ
int_of_u64 n = signed (2 ^ 32) (n % 2 ^ 32)

-- A `lua_Integer` made of a `uint64_t`.
abbrev pub int64_of_u64 : ℕ → ℤ
int64_of_u64 n = signed (2 ^ 64) n

abbrev pub shl32 : ℕ → ℕ → ℕ
shl32 x k = (x * 2 ^ k) % 2 ^ 32

abbrev pub sub32 : ℕ → ℕ → ℕ
sub32 a b = (a + 2 ^ 32 - b) % 2 ^ 32

-- Going through `int32_t` on the way to `uint32_t` loses nothing more.
pub u32-int32 : (z : ℤ) → u32 (int32 z) ≡ u32 z
u32-int32 z = ground arith

pub u32-lt : (z : ℤ) → u32 z < 2 ^ 32
u32-lt (pos n) = omega arith
u32-lt (negsuc n) = omega arith
