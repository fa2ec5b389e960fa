-- ===== src/Lkcpsn/Output.antt =====
-- Where the packets of a connection go.
use lua_kcp_skynet.Prelude.{
  ℕ, ◌-◌, ◌++◌, List, [], ◌∷◌, some, ◌≡◌, refl, ◌∙◌, length, arith, get_elem?-append_last,
  length-append,
}
use lua_kcp_skynet.Prelude.Int.{ℤ, pos}
use lua_kcp_skynet.Heap.{Ptr, load}
use lua_kcp_skynet.Outcome.{ok, ◌>>=◌}
use lua_kcp_skynet.Api.Lua.{Bytes, Value, integer, string, function, light, skynet_context, LuaApi}
use lua_kcp_skynet.Api.Lua
use lua_kcp_skynet.Api.Kcp.{KcpApi}
use lua_kcp_skynet.Machine.{Kcb, load_callback, get_field, pop, load_kcp}
use lua_kcp_skynet.Addresses.{Callback, Block, Datagram, World}
use lua_kcp_skynet.Sender.{
  on_ll, ll_is_function, ll_check_string, call_pack, pack_packet, check_sent, send_datagram,
  output_through, output_to, kcp_output_callback,
}

module _ {L : LuaApi} {K : KcpApi} where
  ll_check_string-ok :
      (s : Bytes) (m m' : L.Vm) (w : World L K)
      → w.statics.ll ≡ some m
      → L.check_string 0 1 m ≡ some (s, m')
      → ll_check_string 1 w ≡ ok s (record w { statics = record (w.statics) { ll = some m' } })
  unfolding ll_check_string
  ll_check_string-ok s m m' w here e = rw (here, e, ll_check_string)

module _ {L : LuaApi} {K : KcpApi} (lua : Lua.IsLawful L) (buf : Bytes) (w : World L K) (m : L.Vm)
    (f : ℕ) (packed : Bytes) (ll_is : w.statics.ll ≡ some m) (empty : L.slots m 0 ≡ [])
    (defined_pack : L.pack_output m ≡ function f) where
  abbrev looked_up : L.Vm
  looked_up = L.push 0 (L.pack_output m) m

  looked_up-slots : L.slots looked_up 0 ≡ function f ∷ []
  looked_up-slots = lua.slots-push 0 _ m ∙ rw (empty, defined_pack) refl

  abbrev pub called : ℕ → L.Vm
  called conv = L.pcall 0 (L.push 0 (string buf) (L.push 0 (integer (pos conv)) looked_up))

  abbrev IsPacked : ℕ → Type 0
  IsPacked conv = L.result (function f) (integer (pos conv)) (string buf) ≡ string packed

  called-slots : (conv : ℕ) → IsPacked conv → L.slots (called conv) 0 ≡ string packed ∷ []
  called-slots conv is =
      lua.slots-pcall 0 _ [] (function f) (integer (pos conv)) (string buf)
        (lua.slots-push 0 _ _ ∙ rw (lua.slots-push, looked_up-slots) refl)
      ∙ rw is refl

  abbrev with_ll : L.Vm → World L K
  with_ll m' = record w { statics = record (w.statics) { ll = some m' } }

  pub pack_packet-ok :
      (conv : ℕ)
      → IsPacked conv
      → pack_packet conv buf w ≡ ok packed (with_ll (L.pop 0 (called conv)))
  unfolding pack_packet on_ll ll_is_function call_pack
  pack_packet-ok conv is =
      let top : length {A = Value} (function f ∷ []) - 1 ≡ 0 = omega arith in
      rw (
        ll_is,
        ◌>>=◌,
        looked_up-slots,
        top,
        ◌>>=◌,
        ll_check_string-ok packed (called conv) (called conv) (with_ll (called conv)) refl
            (lua.check_string-string 0 0 (called conv) packed (rw (called-slots conv is) refl)),
        ◌>>=◌,
      )

  pub popped-slots : (conv : ℕ) → IsPacked conv → L.slots (L.pop 0 (called conv)) 0 ≡ []
  popped-slots conv is = lua.slots-pop 0 (called conv) [] (string packed) (called-slots conv is)

module _ {L : LuaApi} {K : KcpApi} (lua : Lua.IsLawful L) (buf : Bytes) (w : World L K) (m : L.Vm)
    (f : ℕ) (packed : Bytes) (ll_is : w.statics.ll ≡ some m) (empty : L.slots m 0 ≡ [])
    (defined_pack : L.pack_output m ≡ function f) (udp_sendbuffer : List Datagram → ℤ)
    (p c a l ctx : Ptr) (b : Kcb K.Ctl) (cb : Callback) (block : Block)
    (held : load w.kcps p ≡ some b) (holds : load w.callbacks c ≡ some cb) (on_l : cb.el ≡ some l)
    (address : cb.address ≡ some a) (content : load w.statics.addresses a ≡ some block)
    (context : L.field w.vm skynet_context ≡ light (some ctx))
    (is : L.result (function f) (integer (pos (K.conv b.ctl))) (string buf) ≡ string packed) where
  abbrev pub lib : ℕ → L.Vm
  lib = called lua buf w m f packed ll_is empty defined_pack

  abbrev pub datagram : Datagram
  datagram = record {
    ctx = light (some ctx);
    address = block;
    id = w.statics.svrsock;
    buffer = packed;
  }

  abbrev pub after : World L K
  after = record w {
    vm = L.pop l (L.push l (L.field w.vm skynet_context) w.vm);
    statics = record (w.statics) {
      ll = some (L.pop 0 (lib (K.conv b.ctl)));
      sent = datagram ∷ w.statics.sent;
    };
  }

  pub kcp_output_callback-eq :
      kcp_output_callback udp_sendbuffer buf p c w
      ≡ check_sent (udp_sendbuffer (datagram ∷ w.statics.sent)) after
  unfolding kcp_output_callback output_to output_through load_callback get_field pop load_kcp
      send_datagram
  kcp_output_callback-eq =
      let top : length (L.slots w.vm l ++ light (some ctx) ∷ []) - 1 ≡ length (L.slots w.vm l) =
        omega (arith, length-append {0} (L.slots w.vm l) (light (some ctx) ∷ [])) in
      rw (
        holds,
        ◌>>=◌,
        on_l,
        address,
        ◌>>=◌,
        lua.slots-push,
        context,
        top,
        get_elem?-append_last (L.slots w.vm l) (light (some ctx)),
        ◌>>=◌,
        held,
        pack_packet-ok lua buf (record w { vm = L.pop l (L.push l (light (some ctx)) w.vm) }) m f
            packed ll_is empty defined_pack (K.conv b.ctl) is,
        ◌>>=◌,
        content,
      )

  -- Suppose that `LL` is there with an empty stack, that its `pack_output` is a function whose
  -- call on the packet leaves a string, that the connection has a thread and an address block, and
  -- that the registry has the service's context. Then the packet goes out as one datagram: the
  -- context, the connection's address, the socket of the process, and what `pack_output` makes of
  -- the packet and the connection's number. The stack of `LL` is empty again, so that the next
  -- packet finds its own result in slot 1, and the running thread's stack is as it was. If the
  -- socket refuses the datagram, a Lua error is raised.
  pub kcp_output_callback-datagram :
      (w' : World L K) × (kcp_output_callback udp_sendbuffer buf p c w
        ≡ check_sent (udp_sendbuffer (datagram ∷ w.statics.sent)) w')
      × (w'.statics.sent ≡ datagram ∷ w.statics.sent)
      × (L.slots w'.vm l ≡ L.slots w.vm l)
      × (m' : L.Vm) × (w'.statics.ll ≡ some m')
      × (L.slots m' 0 ≡ [])
  kcp_output_callback-datagram = (
    after,
    kcp_output_callback-eq,
    refl,
    lua.slots-pop l _ (L.slots w.vm l) (L.field w.vm skynet_context) (lua.slots-push l _ w.vm),
    L.pop 0 (lib (K.conv b.ctl)),
    refl,
    popped-slots lua buf w m f packed ll_is empty defined_pack (K.conv b.ctl) is,
  )
