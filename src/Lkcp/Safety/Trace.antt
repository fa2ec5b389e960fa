-- ===== src/Lkcp/Safety/Trace.antt =====
-- A whole process that uses lkcp.c: creations, method calls and collections in any order, with the
-- rest of the application between them.
use lua_kcp_skynet.Prelude.{ℕ, List, [], ◌∷◌, none, some, ◌≡◌, refl, inl, inr, Option-cases}
use lua_kcp_skynet.Heap.{Ptr, load, live}
use lua_kcp_skynet.Outcome.{Cmd}
use lua_kcp_skynet.Outcome.Rules.{Ends, mono, both}
use lua_kcp_skynet.Outcome.Trace
use lua_kcp_skynet.Outcome.Trace.{Reach-keeps, run-keeps}
use lua_kcp_skynet.Api.Lua.{Value, kcp, LuaApi}
use lua_kcp_skynet.Api.Lua
use lua_kcp_skynet.Api.Kcp.{KcpApi}
use lua_kcp_skynet.Api.Kcp
use lua_kcp_skynet.Machine.{Kcb, slot, in_slot, as_kcp}
use lua_kcp_skynet.Machine.Args.{kcp_of}
use lua_kcp_skynet.Lkcp.Output.Stack.{Needs, Leaves, Needs-Leaves}
use lua_kcp_skynet.Lkcp.{
  Callback, World, recv_buffer_len, Method, lkcp_methods, lkcp_create, kcp_gc,
}
use lua_kcp_skynet.Lkcp.Safety.Sound.{Sound, Sound-on_vm}
use lua_kcp_skynet.Lkcp.Safety.Calls.{
  lkcp_create-Ends, lkcp_methods-Sound, kcp_gc-Ends, IsCollectable,
}

-- A call of one of the binding's functions by a script or by the collector, on a thread.
pub data Call : Type 0 where
  make : (t : ℕ) → Call
  invoke : Method → (t : ℕ) → Call
  collect : (t : ℕ) → Call

module _ {L : LuaApi} {K : KcpApi} where
  abbrev pub run : Call → Cmd (World L K) ℕ
  run (make t) = lkcp_create t
  run (invoke m t) = lkcp_methods m t
  run (collect t) = kcp_gc t

  -- What a call needs: a creation has an argument; a connection that a method is called on was not
  -- collected; one that is collected was not collected before, and its creating thread is alive.
  abbrev pub Allowed : Call → World L K → Type 0
  Allowed (make t) w = (v : Value) × (vs : List Value) × (L.slots w.vm t ≡ v ∷ vs)
  Allowed (invoke m t) w =
      (p : Ptr) → slot t 1 w ≡ some (kcp (some p)) → (b : Kcb K.Ctl) × (load w.kcps p ≡ some b)
  Allowed (collect t) w = (p : Ptr) → slot t 1 w ≡ some (kcp (some p)) → IsCollectable w p

  -- The process has loaded the library, and made no connection yet.
  abbrev pub Loaded : World L K → Type 0
  Loaded w = (w.kcps ≡ []) × (w.callbacks ≡ []) × (w.buffer.size ≡ recv_buffer_len)

  -- The rest of the application changes the virtual machine as it likes.
  abbrev pub Elsewhere : World L K → World L K → Type 0
  Elsewhere w w' = (m : L.Vm) × (w' ≡ record w { vm = m })

  abbrev pub Reach : World L K → Type 0
  Reach = Trace.Reach run Allowed Loaded Elsewhere

  -- The output function that an update or a flush calls is a function.
  abbrev pub CallsFunction : Call → World L K → Type 0
  CallsFunction (make t) w = Unit {0}
  CallsFunction (invoke m t) w =
      (p c : Ptr) (b : Kcb K.Ctl) (cb : Callback)
      → slot t 1 w ≡ some (kcp (some p))
      → load w.kcps p ≡ some b
      → b.user ≡ some c
      → load w.callbacks c ≡ some cb
      → Needs m cb w
  CallsFunction (collect t) w = Unit {0}

  abbrev pub Careful : Call → World L K → Type 0
  Careful g w = Allowed g w × CallsFunction g w

  abbrev pub CarefulReach : World L K → Type 0
  CarefulReach = Trace.Reach run Careful Loaded Elsewhere

  -- An update or a flush of a connection leaves the stack as it was.
  abbrev pub Balanced : Call → World L K → World L K → Type 0
  Balanced (make t) w w' = Unit {0}
  Balanced (invoke m t) w w' = (p : Ptr) → slot t 1 w ≡ some (kcp (some p)) → Leaves m t w w'
  Balanced (collect t) w w' = Unit {0}

  Loaded-Sound : (w : World L K) → Loaded w → Sound w
  unfolding load live
  Loaded-Sound w (no_kcps, no_callbacks, size) = record {
    owner = λ p b e. let n : load w.kcps p ≡ none = rw no_kcps refl in cc;
    unique = λ p q c a b e e' u u'. let n : load w.kcps p ≡ none = rw no_kcps refl in cc;
    paired = rw (no_kcps, no_callbacks) refl;
    sized = size;
  }

  Elsewhere-Sound : (w w' : World L K) → Elsewhere w w' → Sound w → Sound w'
  Elsewhere-Sound w w' (m, e) s = rw e (Sound-on_vm w m s)

module _ {L : LuaApi} {K : KcpApi} (lua : Lua.IsLawful L) (lawful : Kcp.IsLawful K) where
  run-Sound : (f : Call) (w : World L K) → Allowed f w → Sound w → Ends (λ _. Sound) Sound (run f w)
  run-Sound (make t) w (v, vs, e) s = lkcp_create-Ends t w v vs e s
  run-Sound (invoke m t) w a s = lkcp_methods-Sound lua lawful t w s a m
  run-Sound (collect t) w a s = kcp_gc-Ends t w s a

  no_kcp :
      (t : ℕ) (p : Ptr) (w : World L K)
      → slot t 1 w ≡ some (kcp (some p))
      → in_slot as_kcp (slot t 1 w) ≡ some (some p)
  no_kcp t p w self = rw self refl

  Careful-run :
      (g : Call) (w : World L K) → Careful g w → Sound w → Ends (λ _. Sound) Sound (run g w)
  Careful-run g w a s = run-Sound g w a.0 s

  Careful-Sound : {w : World L K} → CarefulReach w → Sound w
  Careful-Sound {w} r =
      Reach-keeps run Careful Loaded Elsewhere Sound Loaded-Sound Elsewhere-Sound Careful-run r

  run-Balanced :
      (g : Call) (w : World L K)
      → Sound w
      → Careful g w
      → Ends (λ _. Balanced g w) (λ _. Unit {0}) (run g w)
  run-Balanced (make t) w s a = mono (run-Sound (make t) w a.0 s) (λ _ _ _. tt) (λ _ _. tt)
  run-Balanced (collect t) w s a = mono (run-Sound (collect t) w a.0 s) (λ _ _ _. tt) (λ _ _. tt)
  run-Balanced (invoke m t) w s a =
      let ends = run-Sound (invoke m t) w a.0 s in
      elim (Option-cases (in_slot as_kcp (slot t 1 w))) [
        | inl e ↦
            mono ends (λ _ _ _ p self. let x = no_kcp t p w self in absurd (cc (e, x))) (λ _ _. tt)
        | inr (none, e) ↦
            mono ends (λ _ _ _ p self. let x = no_kcp t p w self in absurd (cc (e, x))) (λ _ _. tt)
        | inr (some p, e) ↦
            let self = kcp_of (slot t 1 w) (some p) e in
            let (b, held) = a.0 p self in
            let (c, cb, user, l, o) = s.owner p b held in
            mono
              (Needs-Leaves lua t p c cb w (record { sound = s; b = b; held = held; user = user })
                self l m (mono ends (λ _ _ _. tt) (λ _ _. tt)) (a.1 p c b cb self held user l))
              (λ _ w' x q _. x) (λ _ _. tt)
      ]

  -- In a process that has loaded the library, whatever was called before, however those calls ended
  -- and whatever the rest of the application did to the virtual machine: a creation with at least
  -- one argument, a method whose connection was not collected, or a collection of a connection that
  -- was not collected before, while its creating thread lives, returns or raises a Lua error and
  -- never meets undefined behaviour. It is assumed that, whenever an update or a flush is called, the
  -- connection's reference stands for a Lua function. Afterwards every connection has a callback block
  -- of its own, and there are no other callback blocks; and an update or a flush of a connection that
  -- returns leaves the Lua stack as it was.
  pub run-Reach :
      (g : Call) (w : World L K)
      → CarefulReach w
      → Careful g w
      → Ends
          (λ _ w'. CarefulReach w' × Sound w' × Balanced g w w')
          (λ w'. CarefulReach w' × Sound w')
          (run g w)
  run-Reach g w r a =
      let s = Careful-Sound r in
      mono
        (both
          (run-keeps run Careful Loaded Elsewhere Sound Loaded-Sound Elsewhere-Sound Careful-run g w
            r a)
          (run-Balanced g w s a))
        (λ _ w' x. (x.0.0, x.0.1, x.1)) (λ w' x. x.0)

  Reach-Sound : {w : World L K} → Reach w → Sound w
  Reach-Sound {w} r =
      Reach-keeps run Allowed Loaded Elsewhere Sound Loaded-Sound Elsewhere-Sound run-Sound r

  -- No callback block is lost: as many are allocated as there are connections, in every state of
  -- a process that has loaded the library, that its allowed calls and the rest of the application
  -- can reach.
  pub Reach-paired : (w : World L K) → Reach w → live w.callbacks ≡ live w.kcps
  Reach-paired w r = (Reach-Sound r).paired
