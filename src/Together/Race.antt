-- ===== src/Together/Race.antt =====
-- Two services that send a packet each at the same time.
use lua_kcp_skynet.Sender.{Packing}
use lua_kcp_skynet.Prelude.{ℕ, List, [], ◌∷◌, ◌++◌, ◌≡◌, refl, ◌∙◌, replicate}
use lua_kcp_skynet.Prelude.Int.{ℤ, pos}
use lua_kcp_skynet.Outcome.{ok, fault}
use lua_kcp_skynet.Api.Lua.{Bytes, integer, string, function, LuaApi}
use lua_kcp_skynet.Api.Lua
use lua_kcp_skynet.Api.Kcp.{KcpApi}
use lua_kcp_skynet.Addresses.{Datagram, World}
use lua_kcp_skynet.Together.{done, check_string, fresh, Who, first, second, Pair, run}
use lua_kcp_skynet.Together.Steps.{Stacked, solo-call, solo-send, solo-get_global, solo-abort}
use lua_kcp_skynet.Together.Turns.{run-first_ok, run-second_ok, run-second_fault}

-- The second runs between the first's call of `pack_output` and its look at the result.
abbrev pub overlapping : List Who
overlapping = replicate 6 first ++ replicate 10 second ++ replicate 4 first

-- The second runs up to its look at the result, while the first has only put `pack_output` on the
-- stack.
abbrev pub interrupted_lookup : List Who
interrupted_lookup = replicate 2 first ++ replicate 7 second

abbrev pub two : (conv conv' : ℕ) (buf buf' : Bytes) (envelope envelope' : Bytes → Datagram) → Pair
two conv conv' buf buf' envelope envelope' = record {
  a = fresh conv buf envelope;
  b = fresh conv' buf' envelope';
}

abbrev pub ended : Pair → Bytes → Bytes → Pair
ended p r r' = record {
  a = record (p.a) { packed = r; pc = done };
  b = record (p.b) { packed = r'; pc = done };
}

module _ {L : LuaApi} {K : KcpApi} (lua : Lua.IsLawful L) (udp_sendbuffer : List Datagram → ℤ)
    (accepts : (ds : List Datagram) → udp_sendbuffer ds ≡ pos 0) (pk : Packing L) (conv conv' : ℕ)
    (buf buf' : Bytes) (envelope envelope' : Bytes → Datagram) (w : World L K)
    (d : Stacked pk.f [] w) where
  abbrev both : Pair
  both = two conv conv' buf buf' envelope envelope'

  -- Suppose that `LL` is there with an empty stack, that its `pack_output` is a function every call
  -- of which leaves a string, and that the socket accepts every datagram. If two services send a
  -- packet each and the second is scheduled after the first's call of `pack_output`, nothing holds
  -- it up: it runs to its end, finds the first's packed packet in slot 1 of `LL`, and sends it in its
  -- own datagram. The first then sends that packet too. The second's packet is never sent, no error is
  -- raised, and the stack of `LL` is empty again.
  pub run-overlapping :
      (w' : World L K) × (run udp_sendbuffer overlapping both w
        ≡ ok (ended both (pk.result conv buf) (pk.result conv buf)) w')
      × (w'.statics.sent
          ≡ envelope (pk.result conv buf) ∷ envelope' (pk.result conv buf) ∷ w.statics.sent)
      × Stacked pk.f [] w'
  unfolding run
  run-overlapping =
      let r = pk.result conv buf in
      let r' = pk.result conv' buf' in
      let (w1, e1, d1, s1) = solo-call lua udp_sendbuffer pk conv buf envelope w [] d in
      let (w2, e2, d2, s2) =
        solo-call lua udp_sendbuffer pk conv' buf' envelope' w1 (string r ∷ []) d1 in
      let (w3, e3, d3, s3) =
        solo-send lua udp_sendbuffer pk (record (both.b) { pc = check_string }) w2 r (string r ∷ [])
          (string r') refl refl refl (accepts _) d2 in
      let (w4, e4, d4, s4) =
        solo-send lua udp_sendbuffer pk (record (both.a) { pc = check_string }) w3 r [] (string r)
          refl refl refl (accepts _) d3 in
      (
        w4,
        run-first_ok udp_sendbuffer 6 (replicate 10 second ++ replicate 4 first) both w _ w1 refl e1
            ∙ run-second_ok udp_sendbuffer 6 (replicate 4 second ++ replicate 4 first) _ w1 _ w2
                refl e2
            ∙ run-second_ok udp_sendbuffer 4 (replicate 4 first) _ w2 _ w3 refl e3
            ∙ run-first_ok udp_sendbuffer 4 [] _ w3 _ w4 refl e4,
        rw (s4, s3, s2, s1) refl,
        d4,
      )

module _ {L : LuaApi} {K : KcpApi} (lua : Lua.IsLawful L) (udp_sendbuffer : List Datagram → ℤ)
    (pk : Packing L) (conv conv' : ℕ) (buf buf' : Bytes) (envelope envelope' : Bytes → Datagram)
    (w : World L K) (d : Stacked pk.f [] w) where
  -- Suppose that `LL` is there with an empty stack and that its `pack_output` is a function every
  -- call of which leaves a string. If two services send a packet each and the second is scheduled when
  -- the first has put `pack_output` on the stack, the second finds that function in slot 1 instead of
  -- its packed packet, which is an error that nothing catches, whatever the schedule goes on with.
  pub run-interrupted_lookup :
      (rest : List Who)
      → run udp_sendbuffer
          (interrupted_lookup ++ rest)
          (two conv conv' buf buf' envelope envelope')
          w
        ≡ fault
  unfolding run
  run-interrupted_lookup rest =
      let both = two conv conv' buf buf' envelope envelope' in
      let (w1, e1, d1) = solo-get_global lua udp_sendbuffer pk.f conv buf envelope w [] d in
      let (w2, e2, d2, _) =
        solo-call lua udp_sendbuffer pk conv' buf' envelope' w1 (function pk.f ∷ []) d1 in
      run-first_ok udp_sendbuffer 2 (replicate 7 second ++ rest) both w _ w1 refl e1
      ∙ run-second_ok udp_sendbuffer 6 (second ∷ rest) _ w1 _ w2 refl e2
      ∙ run-second_fault udp_sendbuffer 1 rest _ w2 refl (
          solo-abort lua udp_sendbuffer pk.f 0 (record (both.b) { pc = check_string }) w2
            (string (pk.result conv' buf') ∷ []) refl d2)
