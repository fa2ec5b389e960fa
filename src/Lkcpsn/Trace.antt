-- ===== src/Lkcpsn/Trace.antt =====
-- A whole process whose services use lkcpsn.c: creations, method calls and collections in any order,
-- one at a time, with the rest of the application between them.
use lua_kcp_skynet.Sender.{Packing}
use lua_kcp_skynet.Prelude.{ℕ, ◌≤◌, List, [], none, some, ◌≡◌, ◌⊎◌, refl, length}
use lua_kcp_skynet.Prelude.Int.{ℤ}
use lua_kcp_skynet.Heap.{Ptr, load, live}
use lua_kcp_skynet.Outcome.{Cmd}
use lua_kcp_skynet.Outcome.Rules.{Ends, mono}
use lua_kcp_skynet.Outcome.Trace as Trace
use lua_kcp_skynet.Outcome.Trace.{run-keeps}
use lua_kcp_skynet.Api.Lua.{Bytes, integer, string, function, kcp, LuaApi}
use lua_kcp_skynet.Api.Lua
use lua_kcp_skynet.Api.Kcp.{KcpApi}
use lua_kcp_skynet.Api.Kcp
use lua_kcp_skynet.Machine.{Kcb, Buffer, slot}
use lua_kcp_skynet.Addresses.{Datagram, World}
use lua_kcp_skynet.Lkcpsn.{recv_buffer_len, Method, lkcp_methods, lkcp_create, kcp_gc}
use lua_kcp_skynet.Lkcpsn.Whole.{Packs, same_kcps}
use lua_kcp_skynet.Lkcpsn.Running.{Running, Running-of}
use lua_kcp_skynet.Lkcpsn.Sessions.{session}
use lua_kcp_skynet.Lkcpsn.Sessions.Steps.{Unchanged, Added, Updated, Removed}
use lua_kcp_skynet.Lkcpsn.Sessions.Create.{lkcp_create-Ends}
use lua_kcp_skynet.Lkcpsn.Calls.{lkcp_methods-Served, kcp_gc-Ends}

-- A call of one of the binding's functions by a script or by the collector, on a thread.
pub data Call : Type 0 where
  make : (t : ℕ) → Call
  invoke : Method → (t : ℕ) → Call
  collect : (t : ℕ) → Call

module _ {L : LuaApi} {K : KcpApi} (udp_sendbuffer : List Datagram → ℤ) where
  abbrev pub run : Call → Cmd (World L K) ℕ
  run (make t) = lkcp_create t
  run (invoke m t) = lkcp_methods udp_sendbuffer m t
  run (collect t) = kcp_gc t

module _ {L : LuaApi} {K : KcpApi} (f : ℕ) where
  -- The process has loaded the library, with the function f as `pack_output`, and made no connection
  -- yet.
  pub record Loaded (w : World L K) : Type 0 where
    pub no_kcps : w.kcps ≡ []
    pub no_callbacks : w.callbacks ≡ []
    pub size : w.buffer.size ≡ recv_buffer_len
    pub shared : Packs f w

module _ {L : LuaApi} {K : KcpApi} where
  -- The connection in slot 1, if there is one, was not collected.
  abbrev pub HasLive : ℕ → World L K → Type 0
  HasLive t w =
      (p : Ptr) → slot t 1 w ≡ some (kcp (some p)) → (b : Kcb K.Ctl) × (load w.kcps p ≡ some b)

  -- What a call needs: the address of a creation, where it is accepted, has at least two bytes; a
  -- connection that is used or collected was not collected before.
  abbrev pub Allowed : Call → World L K → Type 0
  Allowed (make t) w = (s : Bytes) (m : L.Vm) → L.check_string t 2 w.vm ≡ some (s, m) → 2 ≤ length s
  Allowed (invoke m t) w = HasLive t w
  Allowed (collect t) w = HasLive t w

  -- The rest of the application changes the virtual machine as it likes, or another service runs, with
  -- a machine and a receive buffer of its own.
  abbrev pub Elsewhere : World L K → World L K → Type 0
  Elsewhere w w' =
      (m : L.Vm) × (b : Buffer) × (b.size ≡ w.buffer.size) × (w' ≡ record w { vm = m; buffer = b })

module _ {L : LuaApi} {K : KcpApi} (udp_sendbuffer : List Datagram → ℤ) (f : ℕ) where
  abbrev pub Reach : World L K → Type 0
  Reach = Trace.Reach (run udp_sendbuffer) Allowed (Loaded f) Elsewhere

module _ {L : LuaApi} {K : KcpApi} (f : ℕ) where
  pub Loaded-Running : (w : World L K) → Loaded f w → Running f w
  unfolding load live
  Loaded-Running w x = record {
    sound = record {
      owner = λ p b e. let n : load w.kcps p ≡ none = rw x.no_kcps refl in absurd (cc (n, e));
      unique = λ p q c a b e e' u u'. let n : load w.kcps p ≡ none = rw x.no_kcps refl in cc;
      apart = λ p q c d a y z cb cb' e e' u u' l l' r r'.
          let n : load w.kcps p ≡ none = rw x.no_kcps refl in cc;
      paired = rw (x.no_kcps, x.no_callbacks) refl;
      sized = x.size;
    };
    shared = x.shared;
  }

  pub Elsewhere-Running : (w w' : World L K) → Elsewhere w w' → Running f w → Running f w'
  Elsewhere-Running w w' (m, b, size, e) i =
      let other : World L K = record w { vm = m; buffer = b } in
      rw e (Running-of f w other refl i.shared (same_kcps w other i.sound refl refl refl size))

module _ {L : LuaApi} {K : KcpApi} where
  -- What a call that returns may do to the table of sessions, and what one that raises an error may.
  abbrev pub Returns : Call → World L K → World L K → Type 0
  Returns (make t) w w' = Unchanged (session w) (session w') ⊎ Added t w (session w) (session w')
  Returns (invoke m t) w w' =
      Unchanged (session w) (session w') ⊎ Updated t w (session w) (session w')
  Returns (collect t) w w' =
      Unchanged (session w) (session w') ⊎ Removed t w (session w) (session w')

  abbrev pub Raises : Call → World L K → World L K → Type 0
  Raises (make t) w w' = Unchanged (session w) (session w')
  Raises (invoke m t) w w' = Returns (invoke m t) w w'
  Raises (collect t) w w' = Unchanged (session w) (session w')

module _ {L : LuaApi} {K : KcpApi} (lua : Lua.IsLawful L) (lawful : Kcp.IsLawful K)
    (udp_sendbuffer : List Datagram → ℤ) (pk : Packing L) where
  pub call-Running :
      (g : Call) (w : World L K)
      → Allowed g w
      → Running pk.f w
      → Ends
          (λ _ w'. Running pk.f w' × Returns g w w')
          (λ w'. Running pk.f w' × Raises g w w')
          (run udp_sendbuffer g w)
  call-Running (make t) w a i = lkcp_create-Ends pk.f t w i a
  call-Running (invoke m t) w a i = lkcp_methods-Served lua lawful udp_sendbuffer pk t w i a m
  call-Running (collect t) w a i = kcp_gc-Ends pk.f t w i a

  call-keeps :
      (g : Call) (w : World L K)
      → Allowed g w
      → Running pk.f w
      → Ends (λ _. Running pk.f) (Running pk.f) (run udp_sendbuffer g w)
  call-keeps g w a i = mono (call-Running g w a i) (λ _ w' x. x.0) (λ w' x. x.0)

  -- The abstract view: in a process that has loaded the library, after any calls that ended in any
  -- way, an allowed call changes the table of sessions in one of the ways that its function is for,
  -- whatever the callback blocks, the address blocks and the socket's answers are, provided that
  -- every call of `pack_output` leaves a string. A creation that returns adds at most one session,
  -- new, with the number and the address in its slots; a method changes at most the session in the
  -- first slot, whose address stays or becomes a string that is not empty; a collection that returns
  -- removes at most the session in the first slot. A creation or a collection that raises a Lua error
  -- changes no session.
  pub run-refines :
      (g : Call) (w : World L K)
      → Reach udp_sendbuffer pk.f w
      → Allowed g w
      → Ends (λ _. Returns g w) (Raises g w) (run udp_sendbuffer g w)
  run-refines g w r a =
      mono
        (call-Running g w a (
          Trace.Reach-keeps (run udp_sendbuffer) Allowed (Loaded pk.f) Elsewhere (Running pk.f)
            (Loaded-Running pk.f) (Elsewhere-Running pk.f) call-keeps r))
        (λ _ w' x. x.1) (λ w' x. x.1)

  -- In a process that has loaded the library, whatever was called before, however those calls
  -- ended, whatever the socket answered and whatever the rest of the application did to the virtual
  -- machines: a creation whose second argument has at least two bytes, if it is a string or a
  -- number, a method whose connection was not collected, or a first collection of a connection
  -- returns or raises a Lua error and never meets undefined behaviour, provided that every call of
  -- `pack_output` leaves a string. Afterwards every connection has a callback block and an address
  -- block of its own, there are no other callback blocks, and packets can be packed.
  pub run-Running :
      (g : Call) (w : World L K)
      → Reach udp_sendbuffer pk.f w
      → Allowed g w
      → Ends
          (λ _ w'. Reach udp_sendbuffer pk.f w' × Running pk.f w')
          (λ w'. Reach udp_sendbuffer pk.f w' × Running pk.f w')
          (run udp_sendbuffer g w)
  run-Running =
      run-keeps (run udp_sendbuffer) Allowed (Loaded pk.f) Elsewhere (Running pk.f)
        (Loaded-Running pk.f) (Elsewhere-Running pk.f) call-keeps
