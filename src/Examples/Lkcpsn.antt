-- ===== src/Examples/Lkcpsn.antt =====
-- Calls of the functions of lkcpsn.c on the stand-ins.
use lua_kcp_skynet.Prelude.{
  ◌+◌, ◌≢◌, ◌++◌, List, [], ◌∷◌, none, some, ◌≡◌, refl, true, ◌==◌, if◌then◌else◌, arith,
}
use lua_kcp_skynet.Prelude.Int.{ℤ, pos}
use lua_kcp_skynet.Heap.{Ptr, load, live}
use lua_kcp_skynet.Outcome.{ok, fault}
use lua_kcp_skynet.Api.Lua.{Bytes, Value, nil, integer, string, kcp, light}
use lua_kcp_skynet.Machine.{Kcb, text}
use lua_kcp_skynet.Addresses.{Callback, Datagram, World}
use lua_kcp_skynet.Addresses.Fill.{c_string}
use lua_kcp_skynet.Addresses.Laws.{Addressed}
use lua_kcp_skynet.Lkcpsn.{recv_buffer_len, kcp_gc, lkcp_create, lkcp_send, lkcp_input}
use lua_kcp_skynet.Sender.{kcp_output_callback, check_sent}
use lua_kcp_skynet.Lkcpsn.Peer.{Queued, lkcp_send_address, lkcp_input_address, lkcp_send_no_address}
use lua_kcp_skynet.Lkcpsn.Output.{kcp_output_callback-datagram}
use lua_kcp_skynet.Lkcpsn.Create.{lkcp_create-Addressed, lkcp_create-short, lkcp_create-leak}
use lua_kcp_skynet.Lkcpsn.Gc.{kcp_gc-frees}
use lua_kcp_skynet.Examples.Vm.{Vm, machine, machine-IsLawful}
use lua_kcp_skynet.Examples.Loopback.{Ctl, loopback}

-- An IPv4 address in the form of skynet's sockets: a type, a port, a host.
abbrev pub home : Bytes
home = 1 ∷ 31 ∷ 144 ∷ 127 ∷ 0 ∷ 0 ∷ 1 ∷ []

abbrev pub away : Bytes
away = 2 ∷ 31 ∷ 145 ∷ 1 ∷ []

abbrev pub vm_with : List Value → Vm
vm_with xs = record {
  stacks = λ t. if t == 1 then xs else [];
  refs = [];
  fields = λ k. light (some 9);
  alive = λ t. t == 1;
}

abbrev pub block : Kcb Ctl
block = record {
  ctl = record { conv = 5; waiting = []; arrived = [] };
  user = some 0;
  output = true;
}

abbrev pub holder : Callback
holder = record { handle = 0; l = some 1; el = some 1; address = some 0; addresssz = 7 }

abbrev pub nothing_yet : List Value → World machine loopback
nothing_yet xs = record {
  vm = vm_with xs;
  kcps = [];
  callbacks = [];
  buffer = record { size = recv_buffer_len; bytes = [] };
  statics = record { addresses = []; ll = some (vm_with []); svrsock = 0; sent = [] };
}

abbrev pub connection : List Value → World machine loopback
connection xs = record (nothing_yet xs) {
  kcps = some block ∷ [];
  callbacks = some holder ∷ [];
  statics = record {
    addresses = some (c_string home) ∷ [];
    ll = some (vm_with []);
    svrsock = 3;
    sent = [];
  };
}

pub connection-Addressed : (xs : List Value) → Addressed 0 0 0 holder (connection xs)
unfolding load
connection-Addressed xs = record {
  b = block;
  held = refl;
  user = refl;
  callback = refl;
  address = refl;
  block = c_string home;
  content = refl;
  size = refl;
}

abbrev pub with_address : List Value
with_address = kcp (some 0) ∷ string (7 ∷ 8 ∷ []) ∷ string away ∷ []

abbrev without_address : List Value
without_address = kcp (some 0) ∷ string (7 ∷ 8 ∷ []) ∷ []

lkcp_send_address_example :
    (w' : World machine loopback) × (lkcp_send 1 (connection with_address) ≡ ok 1 w')
    × (machine.slots w'.vm 1 ≡ with_address ++ integer (pos 0) ∷ [])
    × Queued machine-IsLawful 1 0 0 0 holder
        (connection with_address)
        (connection-Addressed with_address)
        (record { conv = 5; waiting = (7 ∷ 8 ∷ []) ∷ []; arrived = [] })
        away
        w'
unfolding connection-Addressed
lkcp_send_address_example =
    lkcp_send_address machine-IsLawful 1 0 0 0 holder (connection with_address)
      (connection-Addressed with_address) (7 ∷ 8 ∷ []) 2 (31 ∷ 145 ∷ 1 ∷ []) refl

lkcp_input_address_example :
    (w' : World machine loopback) × (lkcp_input 1 (connection with_address) ≡ ok 1 w')
    × (machine.slots w'.vm 1 ≡ with_address ++ integer (pos 0) ∷ [])
    × Queued machine-IsLawful 1 0 0 0 holder
        (connection with_address)
        (connection-Addressed with_address)
        (record { conv = 5; waiting = []; arrived = (7 ∷ 8 ∷ []) ∷ [] })
        away
        w'
unfolding connection-Addressed
lkcp_input_address_example =
    lkcp_input_address machine-IsLawful 1 0 0 0 holder (connection with_address)
      (connection-Addressed with_address) (7 ∷ 8 ∷ []) 2 (31 ∷ 145 ∷ 1 ∷ []) refl

-- The packets go to the one byte '0'.
lkcp_send_no_address_example :
    (w' : World machine loopback) × (lkcp_send 1 (connection without_address) ≡ ok 1 w')
    × (machine.slots w'.vm 1 ≡ without_address ++ string (48 ∷ []) ∷ [])
    × Queued machine-IsLawful 1 0 0 0 holder
        (connection without_address)
        (connection-Addressed without_address)
        (record { conv = 5; waiting = (7 ∷ 8 ∷ []) ∷ []; arrived = [] })
        (48 ∷ [])
        w'
unfolding connection-Addressed
lkcp_send_no_address_example =
    lkcp_send_no_address machine-IsLawful 1 0 0 0 holder (connection without_address)
      (connection-Addressed without_address) (7 ∷ 8 ∷ []) 48 [] refl refl

-- A socket that takes every datagram.
abbrev pub accepting : List Datagram → ℤ
accepting ds = pos 0

abbrev pub packet : Bytes
packet = 0 ∷ 0 ∷ 0 ∷ 5 ∷ 0 ∷ 2 ∷ 7 ∷ 8 ∷ []

abbrev pub expected : Datagram
expected = record { ctx = light (some 9); address = c_string home; id = 3; buffer = packet }

kcp_output_callback-datagram_example :
    (w' : World machine loopback) × (kcp_output_callback accepting
        (7 ∷ 8 ∷ [])
        0
        0
        (connection with_address)
      ≡ ok (pos 0) w')
    × (w'.statics.sent ≡ expected ∷ [])
    × (machine.slots w'.vm 1 ≡ with_address)
    × (m' : Vm) × (w'.statics.ll ≡ some m')
    × (machine.slots m' 0 ≡ [])
unfolding check_sent load
kcp_output_callback-datagram_example =
    kcp_output_callback-datagram machine-IsLawful (7 ∷ 8 ∷ []) (connection with_address)
      (vm_with []) 0 packet refl refl refl accepting 0 0 0 1 9 block holder (c_string home) refl
      refl refl refl refl refl refl

kcp_gc-frees_example :
    (w' : World machine loopback) × (kcp_gc 1 (connection with_address) ≡ ok 0 w')
    × (load w'.kcps 0 ≡ none)
    × (load w'.callbacks 0 ≡ none)
    × (load w'.statics.addresses 0 ≡ none)
    × (live w'.kcps + 1 ≡ live (connection with_address).kcps)
    × (live w'.callbacks + 1 ≡ live (connection with_address).callbacks)
    × (live w'.statics.addresses + 1 ≡ live (connection with_address).statics.addresses)
    × ((q : Ptr) → 0 ≢ q → load w'.kcps q ≡ load (connection with_address).kcps q)
    × ((q : Ptr) → 0 ≢ q → load w'.callbacks q ≡ load (connection with_address).callbacks q)
    × ((q : Ptr)
        → 0 ≢ q
        → load w'.statics.addresses q ≡ load (connection with_address).statics.addresses q)
kcp_gc-frees_example =
    kcp_gc-frees 1 0 0 0 holder (connection with_address) (connection-Addressed with_address) refl

abbrev pub create_call : Bytes → ℤ → List Value
create_call address conv = integer (pos 4) ∷ string address ∷ integer conv ∷ []

abbrev none_bound : World machine loopback
none_bound = nothing_yet (create_call home (pos 5))

abbrev pub made : Ctl
made = record { conv = 5; waiting = []; arrived = [] }

lkcp_create-Addressed_example :
    (p : Ptr) × (c : Ptr) × (a : Ptr) × (cb : Callback) × (w' : World machine loopback)
    × (lkcp_create 1 (nothing_yet (create_call home (pos 5))) ≡ ok 1 w')
    × (d : Addressed p c a cb w') × (d.block ≡ c_string home)
    × (d.b.output ≡ true)
    × (machine.slots w'.vm 1 ≡ create_call home (pos 5) ++ kcp (some p) ∷ [])
    × (none_bound.statics.svrsock ≡ 0 → w'.statics.svrsock ≡ 4)
    × (none_bound.statics.svrsock ≢ 0 → w'.statics.svrsock ≡ 0)
lkcp_create-Addressed_example =
    lkcp_create-Addressed machine-IsLawful 1 (pos 4) (pos 5) home
      (nothing_yet (create_call home (pos 5))) refl made refl (omega arith)

lkcp_create-short_example : lkcp_create 1 (nothing_yet (create_call (9 ∷ []) (pos 5))) ≡ fault
lkcp_create-short_example =
    lkcp_create-short machine-IsLawful 1 (pos 4) (pos 5) (9 ∷ [])
      (nothing_yet (create_call (9 ∷ []) (pos 5))) refl made refl (omega arith)

lkcp_create-leak_example :
    (w' : World machine loopback) × (lkcp_create 1 (nothing_yet (create_call home (pos 0)))
      ≡ ok 2 w')
    × (machine.slots w'.vm 1
        ≡ create_call home (pos 0) ++ nil ∷ string (text "error: fail to create kcp") ∷ [])
    × (live w'.callbacks ≡ live (nothing_yet (create_call home (pos 0))).callbacks)
    × (live w'.statics.addresses
        ≡ live (nothing_yet (create_call home (pos 0))).statics.addresses + 1)
lkcp_create-leak_example =
    lkcp_create-leak machine-IsLawful 1 (pos 4) (pos 0) home
      (nothing_yet (create_call home (pos 0))) refl refl
