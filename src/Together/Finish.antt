-- ===== src/Together/Finish.antt =====
-- lua-kcp/lkcpsn.c: how many of its steps, of those in Together, a service has before it, and how
-- many a schedule gives it.
use lua_kcp_skynet.Prelude.{ℕ, suc, List, [], ◌∷◌, ◌≡◌, ◌⊎◌, inl, inr, refl, arith}
use lua_kcp_skynet.Outcome.{LuaError}
use lua_kcp_skynet.Together.{
  Pc, lock, get_global, is_function, push_conv, push_buf, call, check_string, pop, send, unlock,
  done, failed, Who, first, second,
}

-- The steps that a service has before it.
abbrev pub ahead : Pc → ℕ
ahead lock = 10
ahead get_global = 9
ahead is_function = 8
ahead push_conv = 7
ahead push_buf = 6
ahead call = 5
ahead check_string = 4
ahead pop = 3
ahead send = 2
ahead unlock = 1
ahead done = 0
ahead (failed e) = 0

-- The turns of each service in a schedule.
abbrev pub turns_first : List Who → ℕ
turns_first [] = 0
turns_first (first ∷ schedule) = suc (turns_first schedule)
turns_first (second ∷ schedule) = turns_first schedule

abbrev pub turns_second : List Who → ℕ
turns_second [] = 0
turns_second (first ∷ schedule) = turns_second schedule
turns_second (second ∷ schedule) = suc (turns_second schedule)

-- A service that is at the end, or was left by a Lua error.
abbrev pub IsOver : Pc → Type 0
IsOver pc = (pc ≡ done) ⊎ ((e : LuaError) × (pc ≡ failed e))

pub ahead-IsOver : (pc : Pc) → ahead pc ≡ 0 → IsOver pc
ahead-IsOver lock e = absurd (omega (arith, e))
ahead-IsOver get_global e = absurd (omega (arith, e))
ahead-IsOver is_function e = absurd (omega (arith, e))
ahead-IsOver push_conv e = absurd (omega (arith, e))
ahead-IsOver push_buf e = absurd (omega (arith, e))
ahead-IsOver call e = absurd (omega (arith, e))
ahead-IsOver check_string e = absurd (omega (arith, e))
ahead-IsOver pop e = absurd (omega (arith, e))
ahead-IsOver send e = absurd (omega (arith, e))
ahead-IsOver unlock e = absurd (omega (arith, e))
ahead-IsOver done e = inl refl
ahead-IsOver (failed x) e = inr (x, refl)
