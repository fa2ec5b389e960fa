-- ===== src/Together/Turns.antt =====
-- A stretch of a schedule in which only one of the two services steps.
use lua_kcp_skynet.Prelude.{false, ℕ, zero, suc, List, ◌++◌, ◌≡◌, refl, ap, ◌∙◌, replicate}
use lua_kcp_skynet.Prelude.Int.{ℤ}
use lua_kcp_skynet.Outcome.{Outcome, Cmd, ok, raised, fault, pure, and_then}
use lua_kcp_skynet.Api.Lua.{LuaApi}
use lua_kcp_skynet.Api.Kcp.{KcpApi}
use lua_kcp_skynet.Addresses.{Datagram, World}
use lua_kcp_skynet.Together.{points, Service, Who, first, second, Pair, turn, turn_of, solo, run}

module _ {L : LuaApi} {K : KcpApi} (udp_sendbuffer : List Datagram → ℤ) where
  -- One step, and the rest of the stretch.
  split_turn :
      (o : Outcome (World L K) Service) (put : Service → Pair) (rest : Pair → Cmd (World L K) Pair)
      (alone : Service → Cmd (World L K) Service) (last : Service → Cmd (World L K) Pair)
      → ((s : Service) (w : World L K) → rest (put s) w ≡ and_then (alone s w) last)
      → and_then (and_then o (λ s. pure (put s))) rest ≡ and_then (and_then o alone) last
  split_turn (ok s w) put rest alone last h = h s w
  split_turn (raised e w) put rest alone last h = refl
  split_turn fault put rest alone last h = refl

  run-first :
      (n : ℕ) (rest : List Who) (p : Pair) (w : World L K)
      → points p.b.pc ≡ false
      → run udp_sendbuffer (replicate n first ++ rest) p w
        ≡ and_then (solo udp_sendbuffer n p.a w) (λ s. run udp_sendbuffer rest (record p { a = s }))
  unfolding run solo turn_of
  run-first zero rest p w away = refl
  run-first (suc n) rest p w away = rw away (
      split_turn (turn udp_sendbuffer p.a w) (λ s. record p { a = s }) _ _ _
        (λ s w'. run-first n rest (record p { a = s }) w' away))

  run-second :
      (n : ℕ) (rest : List Who) (p : Pair) (w : World L K)
      → points p.a.pc ≡ false
      → run udp_sendbuffer (replicate n second ++ rest) p w
        ≡ and_then (solo udp_sendbuffer n p.b w) (λ s. run udp_sendbuffer rest (record p { b = s }))
  unfolding run solo turn_of
  run-second zero rest p w away = refl
  run-second (suc n) rest p w away = rw away (
      split_turn (turn udp_sendbuffer p.b w) (λ s. record p { b = s }) _ _ _
        (λ s w'. run-second n rest (record p { b = s }) w' away))

  pub run-first_ok :
      (n : ℕ) (rest : List Who) (p : Pair) (w : World L K) (s : Service) (w' : World L K)
      → points p.b.pc ≡ false
      → solo udp_sendbuffer n p.a w ≡ ok s w'
      → run udp_sendbuffer (replicate n first ++ rest) p w
        ≡ run udp_sendbuffer rest (record p { a = s }) w'
  run-first_ok n rest p w s w' away e =
      run-first n rest p w away
      ∙ ap (λ o. and_then o (λ s'. run udp_sendbuffer rest (record p { a = s' }))) e

  pub run-second_ok :
      (n : ℕ) (rest : List Who) (p : Pair) (w : World L K) (s : Service) (w' : World L K)
      → points p.a.pc ≡ false
      → solo udp_sendbuffer n p.b w ≡ ok s w'
      → run udp_sendbuffer (replicate n second ++ rest) p w
        ≡ run udp_sendbuffer rest (record p { b = s }) w'
  run-second_ok n rest p w s w' away e =
      run-second n rest p w away
      ∙ ap (λ o. and_then o (λ s'. run udp_sendbuffer rest (record p { b = s' }))) e

  pub run-second_fault :
      (n : ℕ) (rest : List Who) (p : Pair) (w : World L K)
      → points p.a.pc ≡ false
      → solo udp_sendbuffer n p.b w ≡ fault
      → run udp_sendbuffer (replicate n second ++ rest) p w ≡ fault
  run-second_fault n rest p w away e =
      run-second n rest p w away
      ∙ ap (λ o. and_then o (λ s'. run udp_sendbuffer rest (record p { b = s' }))) e
