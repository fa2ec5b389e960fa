-- ===== src/Examples/Together.antt =====
-- Two services on the stand-ins, apart and at the same time.
use lua_kcp_skynet.Prelude.{◌≤◌, [], ◌∷◌, ◌++◌, some, ◌≡◌, refl, List, true, false, replicate}
use lua_kcp_skynet.Outcome.{ok, fault}
use lua_kcp_skynet.Api.Lua.{Bytes, light}
use lua_kcp_skynet.Addresses.{Datagram, World}
use lua_kcp_skynet.Addresses.Fill.{c_string}
use lua_kcp_skynet.Together.{
  turn_of, turn, step, fresh, run, first, Service, Who, second, lock, done,
}
use lua_kcp_skynet.Sender.{on_ll, ll_is_function, ll_check_string}
use lua_kcp_skynet.Together.Steps.{Stacked}
use lua_kcp_skynet.Together.Race.{
  overlapping, interrupted_lookup, two, ended, run-overlapping, run-interrupted_lookup,
}
use lua_kcp_skynet.Together.Finish.{turns_first, turns_second}
use lua_kcp_skynet.Together.Progress.{Delivered, run-completes}
use lua_kcp_skynet.Together.Schedules.{exclusive, two_at, Apart, run-exclusive}
use lua_kcp_skynet.Examples.Vm.{packing, pack_bytes, machine, machine-IsLawful}
use lua_kcp_skynet.Examples.Loopback.{loopback}
use lua_kcp_skynet.Examples.Lkcpsn.{accepting, connection, vm_with, home, away}

-- The process's state, and the datagrams of two services: other contexts, other addresses.
abbrev shared : World machine loopback
shared = connection []

abbrev to_home : Bytes → Datagram
to_home bytes = record { ctx = light (some 9); address = c_string home; id = 3; buffer = bytes }

abbrev to_away : Bytes → Datagram
to_away bytes = record { ctx = light (some 8); address = c_string away; id = 3; buffer = bytes }

shared-Stacked : Stacked 0 [] shared
shared-Stacked = record { m = vm_with []; ll = refl; stack = refl; packs = refl }

-- The second service begins and sends while the first is before its `lua_getglobal`, and ends while
-- the first is before its call of the socket.
abbrev around : List Who
around =
    first ∷ (replicate 6 second ++ replicate 3 second)
    ++ replicate 7 first
    ++ second ∷ first ∷ first ∷ []

around-exclusive : exclusive around lock lock ≡ true
around-exclusive = refl

overlapping_is_not : exclusive overlapping lock lock ≡ false
overlapping_is_not = refl

abbrev one : Service
one = fresh 5 (7 ∷ []) to_home

abbrev other : Service
other = fresh 6 (8 ∷ []) to_away

-- The second service looks up `pack_output` when the first has popped its string and not yet sent it.
interrupted_send :
    run accepting
      (replicate 8 first ++ second ∷ second ∷ first ∷ [])
      (two_at pack_bytes one other lock lock)
      shared
    ≡ fault
unfolding run turn_of turn step on_ll ll_is_function ll_check_string
interrupted_send = refl

run-exclusive_example :
    (w' : World machine loopback) × (run accepting around
        (two_at pack_bytes one other lock lock)
        shared
      ≡ ok (two_at pack_bytes one other done done) w')
    × Apart 0 (pack_bytes 5 (7 ∷ [])) (pack_bytes 6 (8 ∷ [])) one other [] done done w'
run-exclusive_example =
    run-exclusive machine-IsLawful accepting (λ ds. refl) packing one other [] around shared
      around-exclusive shared-Stacked refl

-- The peer of the second service gets the packet of the first's connection.
run-overlapping_example :
    (w' : World machine loopback) × (run accepting overlapping
        (two 5 6 (7 ∷ []) (8 ∷ []) to_home to_away)
        shared
      ≡ ok
          (ended
            (two 5 6 (7 ∷ []) (8 ∷ []) to_home to_away)
            (pack_bytes 5 (7 ∷ []))
            (pack_bytes 5 (7 ∷ [])))
          w')
    × (w'.statics.sent ≡ to_home (pack_bytes 5 (7 ∷ [])) ∷ to_away (pack_bytes 5 (7 ∷ [])) ∷ [])
    × Stacked 0 [] w'
run-overlapping_example =
    run-overlapping machine-IsLawful accepting (λ ds. refl) packing 5 6 (7 ∷ []) (8 ∷ []) to_home
      to_away shared shared-Stacked

run-interrupted_lookup_example :
    run accepting
      (interrupted_lookup ++ first ∷ [])
      (two 5 6 (7 ∷ []) (8 ∷ []) to_home to_away)
      shared
    ≡ fault
run-interrupted_lookup_example =
    run-interrupted_lookup machine-IsLawful accepting packing 5 6 (7 ∷ []) (8 ∷ []) to_home to_away
      shared shared-Stacked (first ∷ [])

-- The first service has called `pack_output` and not yet read what it left.
abbrev halfway : List Who
halfway = second ∷ replicate 6 first

run-completes_example :
    (rest : List Who) × (exclusive (halfway ++ rest) lock lock ≡ true)
    × (turns_first rest ≤ 10)
    × (turns_second rest ≤ 10)
    × (w' : World machine loopback) × (run accepting
          (halfway ++ rest)
          (two_at pack_bytes one other lock lock)
          shared
        ≡ ok (two_at pack_bytes one other done done) w')
    × Delivered machine-IsLawful accepting (λ ds. refl) packing one other [] w'
run-completes_example =
    run-completes machine-IsLawful accepting (λ ds. refl) packing one other [] halfway shared refl
      shared-Stacked refl
