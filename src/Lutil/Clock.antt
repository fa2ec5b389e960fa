-- ===== src/Lutil/Clock.antt =====
-- `gettimeofday` counts milliseconds on 31 bits, and `isleep` multiplies by a thousand.
use lua_kcp_skynet.Prelude.{ℕ, ◌+◌, ◌-◌, ◌*◌, ◌/◌, ◌%◌, ◌^◌, ◌<◌, ◌≤◌, ◌≡◌, arith}
use lua_kcp_skynet.Prelude.Int.{ℤ, pos}
use lua_kcp_skynet.Prelude.Word.{u32, u32-lt, int32, shl32, sub32}
use lua_kcp_skynet.Lutil.{l_gettimeofday, l_isleep}

-- The pause is a thousand microseconds for each millisecond of the argument, in 32-bit arithmetic;
-- up to 4294967 milliseconds nothing is cut off.
pub l_isleep-u32 :
    (n : ℤ) → (l_isleep n ≡ u32 n * 1000 % 2 ^ 32) × (u32 n ≤ 4294967 → l_isleep n ≡ u32 n * 1000)
unfolding l_isleep
l_isleep-u32 n = of_word (u32 n) (u32-lt n)
  where
    of_word :
        (m : ℕ)
        → m < 2 ^ 32
        → (sub32 (sub32 (shl32 m 10) (shl32 m 4)) (shl32 m 3) ≡ m * 1000 % 2 ^ 32)
          × (m ≤ 4294967 → sub32 (sub32 (shl32 m 10) (shl32 m 4)) (shl32 m 3) ≡ m * 1000)
    of_word m h = (omega arith, λ k. omega arith)

-- A reading of the clock is the time in milliseconds modulo 2 ^ 31, as long as the time in
-- milliseconds fits 64 bits.
pub l_gettimeofday-mod :
    (sec usec : ℕ)
    → sec * 1000 + usec / 1000 < 2 ^ 64
    → l_gettimeofday sec usec ≡ (sec * 1000 + usec / 1000) % 2 ^ 31
unfolding l_gettimeofday
l_gettimeofday-mod sec usec h = omega arith

-- So the time that passed between two readings, if less than 2 ^ 31 milliseconds, can be had from
-- them although the count wraps.
pub l_gettimeofday-elapsed :
    (sec usec sec' usec' ms : ℕ)
    → sec' * 1000 + usec' / 1000 < 2 ^ 64
    → sec' * 1000 + usec' / 1000 ≡ sec * 1000 + usec / 1000 + ms
    → ms < 2 ^ 31
    → (l_gettimeofday sec' usec' + 2 ^ 31 - l_gettimeofday sec usec) % 2 ^ 31 ≡ ms
l_gettimeofday-elapsed sec usec sec' usec' ms h e lt =
    omega (arith, l_gettimeofday-mod sec usec (omega arith), l_gettimeofday-mod sec' usec' h)

-- A reading passes unchanged through the `int32_t` and the `IUINT32` that the bindings make of it.
pub l_gettimeofday-int32 :
    (sec usec : ℕ)
    → (int32 (pos (l_gettimeofday sec usec)) ≡ pos (l_gettimeofday sec usec))
      × (u32 (int32 (pos (l_gettimeofday sec usec))) ≡ l_gettimeofday sec usec)
unfolding l_gettimeofday
l_gettimeofday-int32 sec usec = ground arith
