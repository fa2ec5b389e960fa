-- ===== src/Lkcp/Output.antt =====
-- Where the packets of an update or a flush go: to the Lua thread that runs it, and to the output
-- function that the connection was made with.
pub mod Drive
pub mod Leaves
pub mod Stack
use mathlib.Core.List.{append_assoc, append-nil}
use lua_kcp_skynet.Prelude.{
  suc, ◌≢◌, ◌⊎◌, inl, inr, ◌+◌, List, [], ◌∷◌, ◌++◌, leb, length, if◌then◌else◌,
  get_elem?-append_last, arith, sym, ◌-◌, length-append, true, false, replicate, ℕ, some, ◌≡◌, refl,
  ◌∙◌, ap, ltb,
}
use lua_kcp_skynet.Prelude.Int.{ℤ, pos}
use lua_kcp_skynet.Prelude.Word.{int64_of_u64, u32, u32-int32}
use lua_kcp_skynet.Heap.{Ptr, load, write}
use lua_kcp_skynet.Heap.Laws.{load-write}
use lua_kcp_skynet.Outcome.{
  Outcome, ok, raised, fault, failed_call, Cmd, pure, and_then, ◌>>=◌, ◌>>◌,
}
use lua_kcp_skynet.Outcome.Rules.{Ends, returns, raises, and_then_assoc, mono, bind}
use lua_kcp_skynet.Api.Lua.{
  nil, recv_buffer, light, other, Bytes, Value, integer, string, function, kcp, LuaApi, referred,
  Called, returned, failed,
}
use lua_kcp_skynet.Api.Lua
use lua_kcp_skynet.Api.Kcp.{KcpApi, Run, finish, emit}
use lua_kcp_skynet.Machine.{
  in_slot, check_integer, slot, on_ctl, output, drive, start, load_callback, store_callback,
  load_kcp, store_kcp, raw_get, is_function, is_function_value, call, push,
}
use lua_kcp_skynet.Machine.Steps.{guarded-ok, user_of-ok, check_integer-ok}
use lua_kcp_skynet.Lkcp.{
  Callback, World, call_output, output_on, kcp_output_callback, run_on, lkcp_update, lkcp_flush,
}
use lua_kcp_skynet.Machine.Rules.{Frame, Connected, on_ctl-Keeps, output-Keeps}
use lua_kcp_skynet.Lkcp.Safety.Serves.{output_on-Keeps}
use lua_kcp_skynet.Lkcp.Safety.Sound.{Open, Open-Frame, Open-Connected, Sound-store_callback}
use lua_kcp_skynet.Lkcp.Output.Drive.{Running, deliver, drive-deliver, deliver-Running}
use lua_kcp_skynet.Lkcp.Output.Leaves.{packets, drive-leaves}

module _ {L : LuaApi} {K : KcpApi} (lua : Lua.IsLawful L) (t p c : Ptr) (cb : Callback)
    (w : World L K) (open_pc : Open p c w) (self : slot t 1 w ≡ some (kcp (some p)))
    (holds : load w.callbacks c ≡ some cb) (positive : ltb 0 cb.handle ≡ true) where
  abbrev now_cb : Callback
  now_cb = record cb { el = some t }

  -- The state in which thread t runs the connection's output.
  abbrev pub running : World L K
  running = record w { callbacks = write w.callbacks c now_cb }

  running-Running :
      (v : Value)
      → referred (int64_of_u64 cb.handle) (L.references w.vm) ≡ v
      → Running p c t now_cb v (L.slots w.vm t) running
  running-Running v value = record {
    open_pc = record {
      sound = Sound-store_callback w c now_cb cb holds open_pc.sound;
      b = open_pc.b;
      held = open_pc.held;
      user = open_pc.user;
    };
    holds = load-write w.callbacks c now_cb cb holds;
    stack = refl;
    value = value;
  }

  run_on-ok : run_on t c w ≡ ok tt running
  unfolding run_on load_callback store_callback
  run_on-ok = rw (holds, ◌>>=◌)

  start-drive :
      (f : K.Ctl → Run K.Ctl)
      → start kcp_output_callback p f running
        ≡ drive kcp_output_callback p (f open_pc.b.ctl) running
  unfolding start load_kcp
  start-drive f = rw (open_pc.held, ◌>>=◌)

  lkcp_flush-drive :
      lkcp_flush t w
      ≡ and_then (drive kcp_output_callback p (K.flush open_pc.b.ctl) running) (λ _. pure 0)
  unfolding lkcp_flush
  lkcp_flush-drive =
      guarded-ok t p c open_pc.b _ w self open_pc.held open_pc.user
      ∙ rw (user_of-ok p c open_pc.b w open_pc.held open_pc.user, run_on-ok, start-drive K.flush)

  lkcp_update-drive :
      (now : ℤ)
      → in_slot L.to_integer (slot t 2 w) ≡ some now
      → lkcp_update t w
        ≡ and_then
            (drive kcp_output_callback p (K.update open_pc.b.ctl (u32 now)) running)
            (λ _. pure 0)
  unfolding lkcp_update check_integer
  lkcp_update-drive now arg =
      guarded-ok t p c open_pc.b _ w self open_pc.held open_pc.user
      ∙ rw (
        arg,
        ◌>>=◌,
        u32-int32 now,
        user_of-ok p c open_pc.b w open_pc.held open_pc.user,
        run_on-ok,
        start-drive (λ k. K.update k (u32 now)),
      )

  module _ (f : ℕ)
      (value : referred (int64_of_u64 cb.handle) (L.references w.vm) ≡ function f) where
    abbrev room : ℕ
    room = length (L.slots w.vm t) + 2

    -- The run of the library, with the calls of f, and its end.
    abbrev pub Balanced : Outcome (World L K) ℕ → Type 0
    Balanced = Ends (λ n w'. (n ≡ 0) × (L.slots w'.vm t ≡ L.slots w.vm t)) (λ _. Unit {0})

    balanced :
        (run : Run K.Ctl) (o : Outcome (World L K) ℕ)
        → o ≡ and_then (deliver room t f p run running) (λ _. pure 0)
        → Balanced o
    balanced run o e = rw e (
        bind
          (deliver-Running lua p c t now_cb refl positive f (L.slots w.vm t) run running
            (running-Running (function f) value))
          (λ _ w' i. returns (refl, i.stack)))

    -- Suppose that the connection's reference stands for the Lua function f. A flush on thread t then
    -- runs the library's flush and calls f with each packet, once, in order, on thread t, whichever
    -- thread made the connection or ran it before; f and the packet are the only things on the stack
    -- above the arguments, so that two free slots are enough for any number of packets. An error of f
    -- ends the flush; otherwise it returns no value, and the stack is as it was.
    pub lkcp_flush-deliver :
        (lkcp_flush t w
          ≡ and_then (deliver room t f p (K.flush open_pc.b.ctl) running) (λ _. pure 0))
        × Balanced (lkcp_flush t w)
    lkcp_flush-deliver =
        let e =
          lkcp_flush-drive
          ∙ ap (λ (o : Outcome (World L K) (Unit {0})). and_then o (λ _. pure 0))
              (drive-deliver lua p c t now_cb refl positive f (L.slots w.vm t)
                (K.flush open_pc.b.ctl) running (running-Running (function f) value)) in
        (e, balanced (K.flush open_pc.b.ctl) (lkcp_flush t w) e)

    pub lkcp_update-number :
        (now : ℤ)
        → in_slot L.to_integer (slot t 2 w) ≡ some now
        → (lkcp_update t w
            ≡ and_then
                (deliver room t f p (K.update open_pc.b.ctl (u32 now)) running)
                (λ _. pure 0))
          × Balanced (lkcp_update t w)
    lkcp_update-number now arg =
        let e =
          lkcp_update-drive now arg
          ∙ ap (λ (o : Outcome (World L K) (Unit {0})). and_then o (λ _. pure 0))
              (drive-deliver lua p c t now_cb refl positive f (L.slots w.vm t)
                (K.update open_pc.b.ctl (u32 now)) running (running-Running (function f) value)) in
        (e, balanced (K.update open_pc.b.ctl (u32 now)) (lkcp_update t w) e)

    -- Suppose that the connection's reference stands for the Lua function f. An update on thread t then
    -- runs the library's update, for a time that is read from the second argument modulo 2 ^ 32, and
    -- calls f with each packet, once, in order, on thread t; f and the packet are the only things on
    -- the stack above the arguments, so that two free slots are enough for any number of packets. An
    -- error of f ends the update; otherwise it returns no value, and the stack is as it was.
    pub lkcp_update-deliver :
        (now : ℤ)
        → slot t 2 w ≡ some (integer now)
        → (lkcp_update t w
            ≡ and_then
                (deliver room t f p (K.update open_pc.b.ctl (u32 now)) running)
                (λ _. pure 0))
          × Balanced (lkcp_update t w)
    lkcp_update-deliver now arg = lkcp_update-number now (rw arg (lua.to_integer-integer now))

  -- If the connection's reference stands for a value that is no function, a flush calls nothing and
  -- leaves that value on the stack once for every packet. The model's stack has room for them; Lua
  -- only promises twenty free slots.
  pub lkcp_flush-leaves :
      (v : Value)
      → ((g : ℕ) → v ≢ function g)
      → referred (int64_of_u64 cb.handle) (L.references w.vm) ≡ v
      → (w' : World L K) × (lkcp_flush t w ≡ ok 0 w')
        × (L.slots w'.vm t ≡ L.slots w.vm t ++ replicate (packets (K.flush open_pc.b.ctl)) v)
  lkcp_flush-leaves v other_value value =
      let (w', e, s) =
        drive-leaves lua p c t now_cb refl positive v (L.slots w.vm t) (K.flush open_pc.b.ctl)
          running other_value (running-Running v value) in
      (w', lkcp_flush-drive ∙ rw e refl, s)
