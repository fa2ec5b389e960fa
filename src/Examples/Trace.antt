-- ===== src/Examples/Trace.antt =====
-- Sequences of calls of lkcp.c and of lkcpsn.c on the stand-ins.
use lua_kcp_skynet.Prelude.{◌≡◌, refl, [], some, ℕ, ap, Option, none, ◌≤◌, length, arith}
use lua_kcp_skynet.Prelude.Int.{pos}
use lua_kcp_skynet.Heap.{live}
use lua_kcp_skynet.Outcome.{Outcome, ok, raised, fault}
use lua_kcp_skynet.Outcome.Rules.{Ends}
use lua_kcp_skynet.Api.Lua.{function, Bytes}
use lua_kcp_skynet.Outcome.Trace.{EndsIn, returned, start, later, call}
use lua_kcp_skynet.Lkcp.{World, lkcp_create}
use lua_kcp_skynet.Lkcp.Safety.Sound.{Sound}
use lua_kcp_skynet.Lkcp.Safety.Create.{lkcp_create-Open}
use lua_kcp_skynet.Lkcp.Safety.Trace.{make, run, Reach, CarefulReach, run-Reach, Reach-paired}
use lua_kcp_skynet.Addresses
use lua_kcp_skynet.Lkcpsn.Running.{Running}
use lua_kcp_skynet.Lkcpsn.Trace as LkcpsnTrace
use lua_kcp_skynet.Lkcpsn.Trace.{run-Running}
use lua_kcp_skynet.Examples.Lkcpsn as Servers
use lua_kcp_skynet.Examples.Lkcpsn.{accepting, home}
use lua_kcp_skynet.Examples.Vm.{Vm, packing, machine, machine-IsLawful}
use lua_kcp_skynet.Examples.Loopback.{loopback, loopback-IsLawful}
use lua_kcp_skynet.Examples.Lkcp.{no_connection, create_call, no_connection-Sound}

abbrev before : World machine loopback
before = no_connection (create_call (pos 5))

abbrev state_of : {A : Type 0} → Outcome (World machine loopback) A → World machine loopback
state_of (ok a w) = w
state_of (raised e w) = w
state_of fault = before

-- One connection was made.
abbrev after : World machine loopback
after = state_of (lkcp_create 1 before)

after-EndsIn : EndsIn after (run (make 1) before)
after-EndsIn =
    let (p, c, w', e, _, _, _, _) =
      lkcp_create-Open machine-IsLawful 1 (pos 5) [] (function 4)
        (record { conv = 5; waiting = []; arrived = [] }) before refl
        (no_connection-Sound (create_call (pos 5))) refl in
    rw e returned

after-Reach : Reach after
after-Reach = later (start (refl, refl, refl)) (call (make 1) (_, _, refl) after-EndsIn)

run-Reach_example :
    Ends
      (λ _ w'. CarefulReach w' × Sound w' × Unit {0})
      (λ w'. CarefulReach w' × Sound w')
      (run (make 1) before)
run-Reach_example =
    run-Reach machine-IsLawful loopback-IsLawful (make 1) before (start (refl, refl, refl))
      ((_, _, refl), tt)

Reach-paired_example : live after.callbacks ≡ live after.kcps
Reach-paired_example = Reach-paired machine-IsLawful loopback-IsLawful after after-Reach

-- A service that makes its first connection.
abbrev pub service : Addresses.World machine loopback
service = Servers.nothing_yet (Servers.create_call home (pos 5))

abbrev size_of : Option (Bytes × Vm) → ℕ
size_of none = 0
size_of (some (s, m)) = length s

pub service-Reach : LkcpsnTrace.Reach accepting 0 service
service-Reach = start (record {
  no_kcps = refl;
  no_callbacks = refl;
  size = refl;
  shared = record { m = Servers.vm_with []; ll = refl; empty = refl; packs = refl };
})

pub long_enough :
    (s : Bytes) (m : Vm) → machine.check_string 1 2 service.vm ≡ some (s, m) → 2 ≤ length s
long_enough s m e = omega (arith, ap size_of e)

run-Running_example :
    Ends
      (λ _ w'. LkcpsnTrace.Reach accepting 0 w' × Running 0 w')
      (λ w'. LkcpsnTrace.Reach accepting 0 w' × Running 0 w')
      (LkcpsnTrace.run accepting (LkcpsnTrace.make 1) service)
run-Running_example =
    run-Running machine-IsLawful loopback-IsLawful accepting packing (LkcpsnTrace.make 1) service
      service-Reach long_enough
