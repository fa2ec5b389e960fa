-- ===== src/Examples/Lkcp.antt =====
-- lkcp.c on the stand-ins.
use lua_kcp_skynet.Prelude.{
  zero, suc, List, [], ◌∷◌, ◌++◌, none, some, true, ◌≡◌, ◌≢◌, refl, arith, if◌then◌else◌, ◌==◌,
}
use lua_kcp_skynet.Prelude.Int.{ℤ, pos}
use lua_kcp_skynet.Heap.{Ptr, load, live}
use lua_kcp_skynet.Outcome.{ok, fault}
use lua_kcp_skynet.Api.Lua.{Value, nil, integer, function, string, kcp, recv_buffer}
use lua_kcp_skynet.Machine.{Kcb, text}
use lua_kcp_skynet.Lkcp.{Callback, World, lkcp_methods, lkcp_create, kcp_gc, recv, recv_buffer_len}
use lua_kcp_skynet.Lkcp.Safety.Sound.{Sound, Open}
use lua_kcp_skynet.Lkcp.Safety.Gc.{
  IsHeld, kcp_gc-Sound, kcp_gc_twice, kcp_gc_orphan, collected, kcp_gc-eq,
}
use lua_kcp_skynet.Lkcp.Safety.Create.{lkcp_create-Open, lkcp_create-null}
use lua_kcp_skynet.Examples.Vm.{Vm, machine, machine-IsLawful}
use lua_kcp_skynet.Examples.Loopback.{Ctl, loopback}

-- Thread 1 has the given values on its stack; reference 7 is the output function.
abbrev pub vm_with : List Value → Vm
vm_with xs = record {
  stacks = λ t. if t == 1 then xs else [];
  refs = (pos 7, function 3) ∷ [];
  fields = λ k. recv_buffer;
  alive = λ t. t == 1;
}

abbrev pub block : Kcb Ctl
block = record {
  ctl = record { conv = 5; waiting = []; arrived = [] };
  user = some 0;
  output = true;
}

abbrev pub holder : Callback
holder = record { handle = 7; l = some 1; el = some 1 }

abbrev pub no_connection : List Value → World machine loopback
no_connection xs = record {
  vm = vm_with xs;
  kcps = [];
  callbacks = [];
  buffer = record { size = recv_buffer_len; bytes = [] };
  statics = tt;
}

abbrev pub one_connection : List Value → World machine loopback
one_connection xs = record (no_connection xs) {
  kcps = some block ∷ [];
  callbacks = some holder ∷ [];
}

pub no_connection-Sound : (xs : List Value) → Sound (no_connection xs)
unfolding load live
no_connection-Sound xs = record {
  owner = λ p b e. cc;
  unique = λ p q c a b e e' u u'. cc;
  paired = refl;
  sized = refl;
}

only_block : (p : Ptr) (b : Kcb Ctl) → load (some block ∷ []) p ≡ some b → (p ≡ 0) × (b ≡ block)
unfolding load
only_block zero b e = (refl, cc)
only_block (suc p) b e = cc

pub one_connection-Open : (xs : List Value) → Open 0 0 (one_connection xs)
unfolding load live
one_connection-Open xs = record {
  sound = record {
    owner = λ p b e. let (at, is) = only_block p b e in (0, holder, cc, refl, cc);
    unique = λ p q c a b e e' u u'.
        let (at, is) = only_block p a e in let (at', is') = only_block q b e' in cc;
    paired = refl;
    sized = refl;
  };
  b = block;
  held = refl;
  user = refl;
}

abbrev pub self_only : List Value
self_only = kcp (some 0) ∷ []

self_only-IsHeld : IsHeld {L = machine} {K = loopback} 1 0 0 holder (one_connection self_only)
unfolding load
self_only-IsHeld = record {
  open_pc = one_connection-Open self_only;
  self = refl;
  callback = refl;
  creator = 1;
  creator_l = refl;
  creator_alive = refl;
}

kcp_gc-Sound_example :
    (w' : World machine loopback) × (kcp_gc 1 (one_connection self_only) ≡ ok 0 w')
    × Sound w'
    × (load w'.kcps 0 ≡ none)
    × (load w'.callbacks 0 ≡ none)
    × ((q : Ptr) → 0 ≢ q → load w'.kcps q ≡ load (one_connection self_only).kcps q)
    × ((d : Ptr) → 0 ≢ d → load w'.callbacks d ≡ load (one_connection self_only).callbacks d)
kcp_gc-Sound_example = kcp_gc-Sound 1 0 0 holder (one_connection self_only) self_only-IsHeld

kcp_gc_twice_example :
    (lkcp_methods recv 1 (collected 0 0 holder (one_connection self_only)) ≡ fault)
    × (kcp_gc 1 (collected 0 0 holder (one_connection self_only)) ≡ fault)
kcp_gc_twice_example =
    kcp_gc_twice machine-IsLawful 1 0 0 holder (one_connection self_only)
      (collected 0 0 holder (one_connection self_only)) recv self_only-IsHeld
      (kcp_gc-eq 1 0 0 holder (one_connection self_only) self_only-IsHeld)

-- The finalizer runs on thread 1; the connection was made by thread 2, which is gone.
abbrev gone : Callback
gone = record { handle = 7; l = some 2; el = some 2 }

abbrev orphaned : World machine loopback
orphaned = record (one_connection self_only) { callbacks = some gone ∷ [] }

orphaned-Open : Open 0 0 orphaned
unfolding load live
orphaned-Open = record {
  sound = record {
    owner = λ p b e. let (at, is) = only_block p b e in (0, gone, cc, refl, cc);
    unique = λ p q c a b e e' u u'.
        let (at, is) = only_block p a e in let (at', is') = only_block q b e' in cc;
    paired = refl;
    sized = refl;
  };
  b = block;
  held = refl;
  user = refl;
}

kcp_gc_orphan_example : kcp_gc 1 orphaned ≡ fault
unfolding load
kcp_gc_orphan_example =
    kcp_gc_orphan 1 0 0 2 gone orphaned orphaned-Open refl refl (omega arith) refl refl

abbrev pub create_call : ℤ → List Value
create_call conv = integer conv ∷ function 4 ∷ []

lkcp_create-Open_example :
    (p : Ptr) × (c : Ptr) × (w' : World machine loopback) × (lkcp_create 1
        (no_connection (create_call (pos 5)))
      ≡ ok 1 w')
    × Open p c w'
    × (load (no_connection (create_call (pos 5))).kcps p ≡ none)
    × (machine.slots w'.vm 1 ≡ (integer (pos 5) ∷ []) ++ kcp (some p) ∷ [])
    × ((q : Ptr) (b : Kcb Ctl)
        → load (no_connection (create_call (pos 5))).kcps q ≡ some b
        → load w'.kcps q ≡ some b)
lkcp_create-Open_example =
    lkcp_create-Open machine-IsLawful 1 (pos 5) [] (function 4)
      (record { conv = 5; waiting = []; arrived = [] }) (no_connection (create_call (pos 5))) refl
      (no_connection-Sound (create_call (pos 5))) refl

lkcp_create-null_example :
    (r : ℤ) × (w' : World machine loopback) × (lkcp_create 1 (no_connection (create_call (pos 0)))
      ≡ ok 2 w')
    × Sound w'
    × (machine.slots w'.vm 1
        ≡ (integer (pos 0) ∷ []) ++ nil ∷ string (text "error: fail to create kcp") ∷ [])
    × (machine.references w'.vm ≡ (r, function 4) ∷ (pos 7, function 3) ∷ [])
    × (live w'.callbacks ≡ live (no_connection (create_call (pos 0))).callbacks)
    × (live w'.kcps ≡ live (no_connection (create_call (pos 0))).kcps)
lkcp_create-null_example =
    lkcp_create-null machine-IsLawful 1 (pos 0) [] (function 4)
      (no_connection (create_call (pos 0))) refl (no_connection-Sound (create_call (pos 0)))
      (λ e. cc) refl
