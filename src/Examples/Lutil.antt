-- ===== src/Examples/Lutil.antt =====
-- lutil.c at concrete values.
use lua_kcp_skynet.Prelude.{
  ℕ, ◌+◌, ◌-◌, ◌%◌, ◌^◌, ◌<◌, ◌↔◌, [], ◌∷◌, length, none, some, ◌≡◌, arith,
}
use lua_kcp_skynet.Prelude.Int.{pos, negsuc}
use lua_kcp_skynet.Prelude.Word.{u32, int32}
use lua_kcp_skynet.Lutil.{l_netbytes2uint32, l_uint322netbytes, l_gettimeofday}
use lua_kcp_skynet.Lutil.Bytes.{
  l_netbytes2uint32-l_uint322netbytes, l_uint322netbytes-l_netbytes2uint32,
  l_netbytes2uint32-none_iff,
}
use lua_kcp_skynet.Lutil.Clock.{l_gettimeofday-elapsed, l_gettimeofday-int32}

l_netbytes2uint32-l_uint322netbytes_example :
    l_netbytes2uint32 (l_uint322netbytes (negsuc 0)) ≡ some 0xffff_ffff
l_netbytes2uint32-l_uint322netbytes_example = l_netbytes2uint32-l_uint322netbytes (negsuc 0)

l_uint322netbytes-l_netbytes2uint32_example :
    (n : ℕ) × (l_netbytes2uint32 (0x80 ∷ 1 ∷ 2 ∷ 3 ∷ []) ≡ some n)
    × (l_uint322netbytes (pos n) ≡ 0x80 ∷ 1 ∷ 2 ∷ 3 ∷ [])
l_uint322netbytes-l_netbytes2uint32_example =
    l_uint322netbytes-l_netbytes2uint32 0x80 1 2 3 (omega arith) (omega arith) (omega arith)
      (omega arith)

l_netbytes2uint32-none_iff_example :
    (l_netbytes2uint32 (1 ∷ 2 ∷ []) ≡ none) ↔ (length {A = ℕ} (1 ∷ 2 ∷ []) < 3)
l_netbytes2uint32-none_iff_example = l_netbytes2uint32-none_iff (1 ∷ 2 ∷ [])

-- Across a wrap of the 31-bit count.
l_gettimeofday-elapsed_example :
    (l_gettimeofday 2147484 0 + 2 ^ 31 - l_gettimeofday 2147483 0) % 2 ^ 31 ≡ 1000
l_gettimeofday-elapsed_example =
    l_gettimeofday-elapsed 2147483 0 2147484 0 1000 (omega arith) (omega arith) (omega arith)

l_gettimeofday-int32_example :
    (int32 (pos (l_gettimeofday 1700000000 5000)) ≡ pos (l_gettimeofday 1700000000 5000))
    × (u32 (int32 (pos (l_gettimeofday 1700000000 5000))) ≡ l_gettimeofday 1700000000 5000)
l_gettimeofday-int32_example = l_gettimeofday-int32 1700000000 5000
