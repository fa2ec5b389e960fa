-- ===== src/Examples/Update.antt =====
-- Updates, flushes and sends of lkcpsn.c on the stand-ins.
use lua_kcp_skynet.Prelude.{List, [], ◌∷◌, some, ◌≡◌, refl, map, false, zero, suc, ap, ◌∙◌, sym}
use lua_kcp_skynet.Prelude.Int.{ℤ, pos, negsuc}
use lua_kcp_skynet.Outcome.Rules.{Ends}
use lua_kcp_skynet.Api.Lua.{integer, kcp}
use lua_kcp_skynet.Addresses.{Datagram, World}
use lua_kcp_skynet.Lkcpsn.{lkcp_update, lkcp_flush}
use lua_kcp_skynet.Heap.{load, Ptr, live}
use lua_kcp_skynet.Addresses.Fill.{c_string}
use lua_kcp_skynet.Lkcpsn.Live.{Live}
use lua_kcp_skynet.Lkcpsn.Transmit.{Sent, transmit, datagram_of}
use lua_kcp_skynet.Lkcpsn.Update.{Done, Stopped, lkcp_update-transmit, lkcp_flush-transmit}
use lua_kcp_skynet.Examples.Vm.{packing, pack_bytes, machine, machine-IsLawful}
use lua_kcp_skynet.Examples.Loopback.{Ctl, loopback}
use lua_kcp_skynet.Machine.{Kcb}
use lua_kcp_skynet.Lkcpsn.Whole.{Whole}
use lua_kcp_skynet.Examples.Lkcpsn.{with_address, connection, block, holder, home, vm_with}

-- A socket that takes one datagram and refuses the next.
abbrev once : List Datagram → ℤ
once (d ∷ []) = pos 0
once _ = negsuc 0

abbrev two_packets : World machine loopback
two_packets = record (connection (kcp (some 0) ∷ integer (pos 40) ∷ [])) {
  kcps =
      some (record block {
        ctl = record { conv = 5; waiting = (7 ∷ []) ∷ (8 ∷ 9 ∷ []) ∷ []; arrived = [] };
      })
      ∷ [];
}

two_packets-Live : Live 0 0 0 two_packets
unfolding load
two_packets-Live = record {
  a = 0;
  cb = holder;
  addressed = record {
    b = record block {
      ctl = record { conv = 5; waiting = (7 ∷ []) ∷ (8 ∷ 9 ∷ []) ∷ []; arrived = [] };
    };
    held = refl;
    user = refl;
    callback = refl;
    address = refl;
    block = c_string home;
    content = refl;
    size = refl;
  };
  output = refl;
  thread = 1;
  on_thread = refl;
  sized = refl;
  m = vm_with [];
  ll = refl;
  empty = refl;
  packs = refl;
}

-- The first packet goes out, and so does the second, which is refused.
abbrev two_sent : Sent Ctl
two_sent =
    transmit once (datagram_of loopback pack_bytes 9 3 (c_string home)) []
      (loopback.flush (record { conv = 5; waiting = (7 ∷ []) ∷ (8 ∷ 9 ∷ []) ∷ []; arrived = [] }))

refused : two_sent.all_accepted ≡ false
refused = refl

both_sent :
    map (λ (d : Datagram). d.buffer) two_sent.datagrams
    ≡ (0 ∷ 0 ∷ 0 ∷ 5 ∷ 0 ∷ 2 ∷ 8 ∷ 9 ∷ []) ∷ (0 ∷ 0 ∷ 0 ∷ 5 ∷ 0 ∷ 1 ∷ 7 ∷ []) ∷ []
both_sent = refl

lkcp_flush-transmit_example :
    Ends
      (Done machine-IsLawful once packing 1 0 0 9 two_packets two_packets-Live refl refl two_sent)
      (Stopped machine-IsLawful once packing 1 0 0 9 two_packets two_packets-Live refl refl
        two_sent)
      (lkcp_flush once 1 two_packets)
unfolding two_packets-Live
lkcp_flush-transmit_example =
    lkcp_flush-transmit machine-IsLawful once packing 1 0 0 9 two_packets two_packets-Live refl refl

lkcp_update-transmit_example :
    Ends
      (Done machine-IsLawful once packing 1 0 0 9 two_packets two_packets-Live refl refl two_sent)
      (Stopped machine-IsLawful once packing 1 0 0 9 two_packets two_packets-Live refl refl
        two_sent)
      (lkcp_update once 1 two_packets)
unfolding two_packets-Live
lkcp_update-transmit_example =
    lkcp_update-transmit machine-IsLawful once packing 1 0 0 9 two_packets two_packets-Live refl
      refl (pos 40) refl

only_block : (p : Ptr) (b : Kcb Ctl) → load (some block ∷ []) p ≡ some b → (p ≡ 0) × (b ≡ block)
unfolding load
only_block zero b e = (refl, cc)
only_block (suc p) b e = cc

pub connection-Whole : Whole 0 0 0 (connection with_address)
unfolding load live
connection-Whole = record {
  open_pc = record {
    sound = record {
      owner = λ p b e.
          let (at, is) = only_block p b e in
          record {
            c = 0;
            cb = holder;
            a = 0;
            block = c_string home;
            thread = 1;
            user = ap (λ (z : Kcb Ctl). z.user) is;
            output = ap (λ (z : Kcb Ctl). z.output) is;
            callback = refl;
            on_thread = refl;
            address = refl;
            content = refl;
            size = refl;
          };
      unique = λ p q c x y e e' u u'.
          let (at, _) = only_block p x e in let (at', _) = only_block q y e' in at ∙ sym at';
      apart = λ p q c d a x y cb cb' e e' u u' l l' r r'.
          let (at, _) = only_block p x e in let (at', _) = only_block q y e' in at ∙ sym at';
      paired = refl;
      sized = refl;
    };
    b = block;
    held = refl;
    user = refl;
  };
  shared = record { m = vm_with []; ll = refl; empty = refl; packs = refl };
}
