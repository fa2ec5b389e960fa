-- ===== src/Examples/Calls.antt =====
-- Calls of the methods of lkcp.c on the stand-ins: a receive, an update and a flush.
use lua_kcp_skynet.Prelude.{ℕ, replicate, zero, suc, List, [], ◌∷◌, ◌++◌, some, ◌≡◌, refl}
use lua_kcp_skynet.Prelude.Int.{pos}
use lua_kcp_skynet.Heap.{load, live, write}
use lua_kcp_skynet.Outcome.{ok, pure, and_then}
use lua_kcp_skynet.Api.Lua.{Bytes, Value, integer, string, kcp}
use lua_kcp_skynet.Machine.{Kcb}
use lua_kcp_skynet.Lkcp.{World, lkcp_recv, lkcp_update, lkcp_flush}
use lua_kcp_skynet.Lkcp.Safety.Sound.{Open, Sound-on_vm}
use lua_kcp_skynet.Lkcp.Receive.{lkcp_recv_message}
use lua_kcp_skynet.Outcome.Rules.{Ends}
use lua_kcp_skynet.Lkcp.Output.{lkcp_update-deliver, lkcp_flush-deliver, lkcp_flush-leaves}
use lua_kcp_skynet.Lkcp.Output.Drive.{deliver}
use lua_kcp_skynet.Examples.Vm.{machine, machine-IsLawful}
use lua_kcp_skynet.Examples.Loopback.{Ctl, loopback, loopback-IsLawful}
use lua_kcp_skynet.Examples.Lkcp.{vm_with, block, holder, one_connection, self_only}

abbrev with_queues : List Bytes → List Bytes → Kcb Ctl
with_queues waiting arrived = record block {
  ctl = record { conv = 5; waiting = waiting; arrived = arrived };
}

abbrev queued : List Bytes → List Bytes → List Value → World machine loopback
queued waiting arrived xs = record (one_connection xs) {
  kcps = some (with_queues waiting arrived) ∷ [];
}

only_queued :
    (waiting arrived : List Bytes) (p : ℕ) (b : Kcb Ctl)
    → load (some (with_queues waiting arrived) ∷ []) p ≡ some b
    → (p ≡ 0) × (b ≡ with_queues waiting arrived)
unfolding load
only_queued waiting arrived zero b e = (refl, cc)
only_queued waiting arrived (suc p) b e = cc

queued-Open :
    (waiting arrived : List Bytes) (xs : List Value) → Open 0 0 (queued waiting arrived xs)
unfolding load live
queued-Open waiting arrived xs = record {
  sound = record {
    owner = λ p b e. let (at, is) = only_queued waiting arrived p b e in (0, holder, cc, refl, cc);
    unique = λ p q c a b e e' u u'.
        let (at, is) = only_queued waiting arrived p a e in
        let (at', is') = only_queued waiting arrived q b e' in cc;
    paired = refl;
    sized = refl;
  };
  b = with_queues waiting arrived;
  held = refl;
  user = refl;
}

abbrev hi : Bytes
hi = 104 ∷ 105 ∷ []

lkcp_recv_message_example :
    (w' : World machine loopback) × (lkcp_recv 1 (queued [] (hi ∷ []) self_only) ≡ ok 2 w')
    × (machine.slots w'.vm 1 ≡ self_only ++ integer (pos 2) ∷ string hi ∷ [])
    × (load w'.kcps 0 ≡ some block)
unfolding queued-Open
lkcp_recv_message_example =
    lkcp_recv_message machine-IsLawful loopback-IsLawful 1 0 0 (queued [] (hi ∷ []) self_only)
      (queued-Open [] (hi ∷ []) self_only) refl refl refl

abbrev update_args : List Value
update_args = kcp (some 0) ∷ integer (pos 100) ∷ []

abbrev sending : List Value → World machine loopback
sending xs = queued (hi ∷ []) [] xs

-- Two slots above the one argument are enough.
lkcp_flush-deliver_example :
    (lkcp_flush 1 (sending self_only)
      ≡ and_then
          (deliver 3 1 3 0
            (loopback.flush (with_queues (hi ∷ []) []).ctl)
            (record (sending self_only) { callbacks = some holder ∷ [] }))
          (λ _. pure 0))
    × Ends
        (λ n w'. (n ≡ 0) × (machine.slots w'.vm 1 ≡ self_only))
        (λ _. Unit {0})
        (lkcp_flush 1 (sending self_only))
unfolding queued-Open load write
lkcp_flush-deliver_example =
    lkcp_flush-deliver machine-IsLawful 1 0 0 holder (sending self_only)
      (queued-Open (hi ∷ []) [] self_only) refl refl refl 3 refl

lkcp_update-deliver_example :
    (lkcp_update 1 (sending update_args)
      ≡ and_then
          (deliver 4 1 3 0
            (loopback.update (with_queues (hi ∷ []) []).ctl 100)
            (record (sending update_args) { callbacks = some holder ∷ [] }))
          (λ _. pure 0))
    × Ends
        (λ n w'. (n ≡ 0) × (machine.slots w'.vm 1 ≡ update_args))
        (λ _. Unit {0})
        (lkcp_update 1 (sending update_args))
unfolding queued-Open load write
lkcp_update-deliver_example =
    lkcp_update-deliver machine-IsLawful 1 0 0 holder (sending update_args)
      (queued-Open (hi ∷ []) [] update_args) refl refl refl 3 refl (pos 100) refl

-- The script gave `lkcp_create` a string for its output function, and sends twenty-one packets.
abbrev twenty_one : List Bytes
twenty_one = replicate 21 hi

abbrev no_output : World machine loopback
no_output = record (queued twenty_one [] self_only) {
  vm = record (vm_with self_only) { refs = (pos 7, string hi) ∷ [] };
}

no_output-Open : Open 0 0 no_output
unfolding queued-Open load
no_output-Open = record {
  sound =
      Sound-on_vm (queued twenty_one [] self_only) no_output.vm
        ((queued-Open twenty_one [] self_only).sound);
  b = with_queues twenty_one [];
  held = refl;
  user = refl;
}

lkcp_flush-leaves_example :
    (w' : World machine loopback) × (lkcp_flush 1 no_output ≡ ok 0 w')
    × (machine.slots w'.vm 1 ≡ self_only ++ replicate 21 (string hi))
unfolding no_output-Open load write
lkcp_flush-leaves_example =
    lkcp_flush-leaves machine-IsLawful 1 0 0 holder no_output no_output-Open refl refl refl
      (string hi) (λ g e. cc) refl
