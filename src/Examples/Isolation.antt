-- ===== src/Examples/Isolation.antt =====
-- Methods on one of two connections, of lkcp.c and of lkcpsn.c, on the stand-ins.
use lua_kcp_skynet.Prelude.{◌≡◌, [], ◌∷◌, some, refl}
use lua_kcp_skynet.Heap.{load, alloc}
use lua_kcp_skynet.Outcome.Rules.{Ends}
use lua_kcp_skynet.Addresses
use lua_kcp_skynet.Addresses.Fill.{c_string}
use lua_kcp_skynet.Lkcp as Lkcp
use lua_kcp_skynet.Lkcp.Safety.Sound.{Open}
use lua_kcp_skynet.Lkcp.Safety.Blocks as LkcpBlocks
use lua_kcp_skynet.Lkcp.Safety.Isolation.{Isolated, lkcp_methods-Isolated}
use lua_kcp_skynet.Lkcpsn.{send}
use lua_kcp_skynet.Lkcpsn
use lua_kcp_skynet.Lkcpsn.Blocks.{added, added-Sound}
use lua_kcp_skynet.Lkcpsn.Whole.{Whole}
use lua_kcp_skynet.Lkcpsn.Isolation.{Confined, lkcp_methods-Confined}
use lua_kcp_skynet.Examples.Vm.{packing, machine, machine-IsLawful}
use lua_kcp_skynet.Examples.Loopback.{Ctl, loopback, loopback-IsLawful}
use lua_kcp_skynet.Examples.Lkcp as Clients
use lua_kcp_skynet.Examples.Lkcpsn as Servers
use lua_kcp_skynet.Examples.Lkcpsn.{accepting, with_address, connection, home, away}
use lua_kcp_skynet.Examples.Update.{connection-Whole}

-- The other connection has a message to hand over and one to send.
abbrev busy : Ctl
busy = record { conv = 6; waiting = (7 ∷ []) ∷ []; arrived = (8 ∷ []) ∷ [] }

abbrev two_clients : Lkcp.World machine loopback
two_clients = LkcpBlocks.added Clients.holder busy (Clients.one_connection Clients.self_only)

two_clients-Open : Open 0 0 two_clients
unfolding LkcpBlocks.added load alloc
two_clients-Open = record {
  sound =
      LkcpBlocks.added-Sound Clients.holder busy (Clients.one_connection Clients.self_only)
        ((Clients.one_connection-Open Clients.self_only).sound);
  b = Clients.block;
  held = refl;
  user = refl;
}

lkcp_methods-Isolated_example :
    Ends
      (λ _ w'.
        Isolated 0 0 Clients.holder two_clients w'
        × (machine.slots w'.vm 1 ≡ machine.slots two_clients.vm 1))
      (Isolated 0 0 Clients.holder two_clients)
      (Lkcp.lkcp_methods Lkcp.flush 1 two_clients)
unfolding LkcpBlocks.added load alloc
lkcp_methods-Isolated_example =
    lkcp_methods-Isolated machine-IsLawful loopback-IsLawful 0 0 Lkcp.flush 1 Clients.holder
      two_clients refl two_clients-Open refl (record { positive = refl; f = 3; value = refl })

abbrev second_holder : Addresses.Callback
second_holder = record Servers.holder {
  address = some (alloc (connection with_address).statics.addresses (c_string away)).0;
  addresssz = 4;
}

abbrev two_peers : Addresses.World machine loopback
two_peers =
    added (connection with_address) connection-Whole.open_pc.sound busy (c_string away)
      second_holder 1 refl refl refl

two_peers-Whole : Whole 0 0 0 two_peers
unfolding load alloc
two_peers-Whole = record {
  open_pc = record {
    sound =
        added-Sound (connection with_address) connection-Whole.open_pc.sound busy (c_string away)
          second_holder 1 refl refl refl;
    b = Servers.block;
    held = refl;
    user = refl;
  };
  shared = record { m = Servers.vm_with []; ll = refl; empty = refl; packs = refl };
}

lkcp_methods-Confined_example :
    Ends
      (λ _. Confined 0 0 0 0 (c_string home) two_peers)
      (Confined 0 0 0 0 (c_string home) two_peers)
      (Lkcpsn.lkcp_methods accepting send 1 two_peers)
unfolding load alloc
lkcp_methods-Confined_example =
    lkcp_methods-Confined machine-IsLawful loopback-IsLawful accepting packing 0 0 send 1 0
      Servers.holder (c_string home) two_peers refl two_peers-Whole refl refl refl
