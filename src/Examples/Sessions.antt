-- ===== src/Examples/Sessions.antt =====
-- The table of sessions of lkcpsn.c on the stand-ins: a service makes its first connection.
use lua_kcp_skynet.Prelude.{ℕ, ◌∷◌, some, ◌≡◌, refl, arith}
use lua_kcp_skynet.Prelude.Int.{pos}
use lua_kcp_skynet.Heap.{Ptr, load}
use lua_kcp_skynet.Outcome.{ok}
use lua_kcp_skynet.Outcome.Rules.{Ends}
use lua_kcp_skynet.Outcome.Trace.{returned, later, call}
use lua_kcp_skynet.Api.Lua.{Bytes}
use lua_kcp_skynet.Machine.{Kcb}
use lua_kcp_skynet.Addresses.{World}
use lua_kcp_skynet.Addresses.Fill.{c_string}
use lua_kcp_skynet.Lkcpsn.{lkcp_create}
use lua_kcp_skynet.Lkcpsn.Create.{lkcp_create-Addressed}
use lua_kcp_skynet.Lkcpsn.Sessions.{session}
use lua_kcp_skynet.Lkcpsn.Trace.{make, run, Reach, Returns, Raises, run-refines}
use lua_kcp_skynet.Lkcpsn.Refine.{Reach-IsText}
use lua_kcp_skynet.Examples.Vm.{packing, machine, machine-IsLawful}
use lua_kcp_skynet.Examples.Loopback.{Ctl, loopback, loopback-IsLawful}
use lua_kcp_skynet.Examples.Lkcpsn.{accepting, home, made}
use lua_kcp_skynet.Examples.Trace.{service, service-Reach, long_enough}

run-refines_example :
    Ends (λ _. Returns (make 1) service) (Raises (make 1) service) (run accepting (make 1) service)
run-refines_example =
    run-refines machine-IsLawful loopback-IsLawful accepting packing (make 1) service service-Reach
      long_enough

-- The connection, its control block and the state after the call.
first_connection :
    (p : Ptr) × (b : Kcb Ctl) × (w' : World machine loopback) × (lkcp_create 1 service ≡ ok 1 w')
    × (load w'.kcps p ≡ some b)
first_connection =
    let (p, c, a, cb, w', e, d, _, _, _, _, _) =
      lkcp_create-Addressed machine-IsLawful 1 (pos 4) (pos 5) home service refl made refl
        (omega arith) in
    (p, d.b, w', e, d.held)

connected-Reach : Reach accepting 0 first_connection.2
connected-Reach = later service-Reach (call (make 1) long_enough (rw first_connection.3 returned))

Reach-IsText_example :
    (n : ℕ) × (ns : Bytes) × (session first_connection.2 first_connection.0
      ≡ some (record { ctl = first_connection.1.ctl; address = c_string (n ∷ ns) }))
Reach-IsText_example =
    Reach-IsText machine-IsLawful loopback-IsLawful accepting packing first_connection.2
      first_connection.0 first_connection.1 connected-Reach first_connection.4
