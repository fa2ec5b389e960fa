-- ===== src/Lkcpsn/Transmit.antt =====
-- A run of the library on lkcpsn.c's output callback, as the sequence of datagrams that it sends.
use lua_kcp_skynet.Sender.{Packing, kcp_output_callback, check_sent}
use lua_kcp_skynet.Prelude.{
  ℕ, zero, suc, Bool, true, false, List, [], ◌∷◌, some, ◌≡◌, refl, ap, ◌∙◌, if◌then◌else◌, ◌⊎◌, inl,
  inr,
}
use lua_kcp_skynet.Prelude.Int.{ℤ, pos, negsuc}
use lua_kcp_skynet.Heap.{load, write}
use lua_kcp_skynet.Heap.Laws.{load-write}
use lua_kcp_skynet.Outcome.{ok, raised, send_failed, ◌>>=◌}
use lua_kcp_skynet.Outcome.Rules.{Ends, returns, raises}
use lua_kcp_skynet.Api.Lua.{
  Bytes, Value, integer, string, function, light, kcp, skynet_context, LuaApi,
}
use lua_kcp_skynet.Api.Lua
use lua_kcp_skynet.Api.Kcp.{KcpApi, Run, finish, emit}
use lua_kcp_skynet.Machine.{Kcb, output, drive, load_kcp}
use lua_kcp_skynet.Machine.Steps.{on_ctl-ok}
use lua_kcp_skynet.Addresses.{Callback, Block, Datagram, World}
use lua_kcp_skynet.Lkcpsn.Output.{kcp_output_callback-eq, after, popped-slots}

-- The socket takes a datagram exactly if it answers 0.
abbrev pub accepts : ℤ → Bool
accepts (pos zero) = true
accepts (pos (suc n)) = false
accepts (negsuc n) = false

-- What a run of the library sends: every packet in turn, until the socket refuses one. The
-- datagrams, the last first; the control block then; and whether all of them were accepted.
pub record Sent (Ctl : Type 0) : Type 0 where
  pub datagrams : List Datagram
  pub ctl : Ctl
  pub all_accepted : Bool

abbrev pub transmit :
    {Ctl : Type 0}
    → (List Datagram → ℤ)
    → (Ctl → Bytes → Datagram)
    → List Datagram
    → Run Ctl
    → Sent Ctl
transmit udp make sent (finish k) = record { datagrams = sent; ctl = k; all_accepted = true }
transmit udp make sent (emit buf k next) =
    let rest = transmit udp make (make k buf ∷ sent) (next (pos 0)) in
    if accepts (udp (make k buf ∷ sent))
    then rest
    else record { datagrams = make k buf ∷ sent; ctl = k; all_accepted = false }

-- The datagram of a packet, made by a control block for the given context, address and socket.
abbrev pub datagram_of :
    (K : KcpApi) → (ℕ → Bytes → Bytes) → (ctx id : ℕ) → Block → K.Ctl → Bytes → Datagram
datagram_of K result ctx id block k buf = record {
  ctx = light (some ctx);
  address = block;
  id = id;
  buffer = result (K.conv k) buf;
}

module _ {L : LuaApi} {K : KcpApi} (lua : Lua.IsLawful L) (udp_sendbuffer : List Datagram → ℤ)
    (pk : Packing L) (p c t a ctx id : ℕ) (b0 : Kcb K.Ctl) (cb : Callback) (block : Block)
    (user : b0.user ≡ some c) (output_set : b0.output ≡ true) (on_t : cb.el ≡ some t)
    (address : cb.address ≡ some a) where
  -- The connection p is ready to send, with the control block k, and these datagrams are out.
  pub record Ready (k : K.Ctl) (sent : List Datagram) (w : World L K) : Type 0 where
    pub held : load w.kcps p ≡ some (record b0 { ctl = k })
    pub callback : load w.callbacks c ≡ some cb
    pub content : load w.statics.addresses a ≡ some block
    pub context : L.field w.vm skynet_context ≡ light (some ctx)
    pub socket : w.statics.svrsock ≡ id
    pub out : w.statics.sent ≡ sent
    pub m : L.Vm
    pub ll : w.statics.ll ≡ some m
    pub empty : L.slots m 0 ≡ []
    pub packs : L.pack_output m ≡ function pk.f

  callback-Ready :
      (k : K.Ctl) (sent : List Datagram) (buf : Bytes) (w : World L K)
      → Ready k sent w
      → (w' : World L K) × (kcp_output_callback udp_sendbuffer buf p c w
          ≡ check_sent (udp_sendbuffer (datagram_of K pk.result ctx id block k buf ∷ sent)) w')
        × Ready k (datagram_of K pk.result ctx id block k buf ∷ sent) w'
  callback-Ready k sent buf w r =
      let eq =
        kcp_output_callback-eq lua buf w r.m pk.f (pk.result (K.conv k) buf) r.ll r.empty r.packs
          udp_sendbuffer p c a t ctx (record b0 { ctl = k }) cb block r.held r.callback on_t address
          r.content r.context (pk.leaves (K.conv k) buf) in
      let w' : World L K =
        after lua buf w r.m pk.f (pk.result (K.conv k) buf) r.ll r.empty r.packs udp_sendbuffer p c
          a t ctx (record b0 { ctl = k }) cb block r.held r.callback on_t address r.content
          r.context (pk.leaves (K.conv k) buf) in
      let same : w'.statics.sent ≡ datagram_of K pk.result ctx id block k buf ∷ sent =
        rw (r.socket, r.out) refl in
      (
        w',
        eq ∙ ap (λ (ds : List Datagram). check_sent (udp_sendbuffer ds) w') same,
        record {
          held = r.held;
          callback = r.callback;
          content = r.content;
          context =
              lua.field-pop t _ skynet_context ∙ lua.field-push t _ w.vm skynet_context ∙ r.context;
          socket = r.socket;
          out = same;
          m = _;
          ll = refl;
          empty =
              popped-slots lua buf w r.m pk.f (pk.result (K.conv k) buf) r.ll r.empty r.packs
                (K.conv k) (pk.leaves (K.conv k) buf);
          packs =
              lua.pack_output-pop 0 _
              ∙ lua.pack_output-pcall 0 _
              ∙ lua.pack_output-push 0 _ _
              ∙ lua.pack_output-push 0 _ _
              ∙ lua.pack_output-push 0 _ r.m
              ∙ r.packs;
        },
      )

  set_ctl :
      (k k' : K.Ctl) (sent : List Datagram) (w : World L K)
      → Ready k sent w
      → Ready k' sent (record w { kcps = write w.kcps p (record b0 { ctl = k' }) })
  set_ctl k k' sent w r = record {
    held = load-write w.kcps p (record b0 { ctl = k' }) (record b0 { ctl = k }) r.held;
    callback = r.callback;
    content = r.content;
    context = r.context;
    socket = r.socket;
    out = r.out;
    m = r.m;
    ll = r.ll;
    empty = r.empty;
    packs = r.packs;
  }

  output-Ready :
      (k : K.Ctl) (sent : List Datagram) (buf : Bytes) (w : World L K)
      → Ready k sent w
      → output (kcp_output_callback udp_sendbuffer) buf p w
        ≡ kcp_output_callback udp_sendbuffer buf p c w
  unfolding output load_kcp
  output-Ready k sent buf w r = rw (r.held, user, output_set, ◌>>=◌)

  check_sent-cases :
      (err : ℤ) (w : World L K)
      → ((accepts err ≡ true) × (check_sent err w ≡ ok (pos 0) w))
        ⊎ ((accepts err ≡ false) × (check_sent err w ≡ raised send_failed w))
  unfolding check_sent
  check_sent-cases (pos zero) w = inl (refl, refl)
  check_sent-cases (pos (suc n)) w = inr (refl, refl)
  check_sent-cases (negsuc n) w = inr (refl, refl)

  pub drive-transmit :
      (run : Run K.Ctl) (k : K.Ctl) (sent : List Datagram) (w : World L K)
      → Ready k sent w
      → let r = transmit udp_sendbuffer (datagram_of K pk.result ctx id block) sent run in
        Ends
          (λ _ w'. (r.all_accepted ≡ true) × Ready r.ctl r.datagrams w')
          (λ w'. (r.all_accepted ≡ false) × Ready r.ctl r.datagrams w')
          (drive (kcp_output_callback udp_sendbuffer) p run w)
  unfolding drive
  drive-transmit (finish k') k sent w r =
      rw (on_ctl-ok p (record b0 { ctl = k }) (λ _. (tt, k')) w r.held)
        (returns (refl, set_ctl k k' sent w r))
  drive-transmit (emit buf k' next) k sent w r =
      let w1 : World L K = record w { kcps = write w.kcps p (record b0 { ctl = k' }) } in
      let r1 = set_ctl k k' sent w r in
      let (w2, e, r2) = callback-Ready k' sent buf w1 r1 in
      let d : List Datagram = datagram_of K pk.result ctx id block k' buf ∷ sent in
      rw
        (
          on_ctl-ok p (record b0 { ctl = k }) (λ _. (tt, k')) w r.held,
          ◌>>=◌,
          output-Ready k' sent buf w1 r1,
          e,
        )
        (elim (check_sent-cases (udp_sendbuffer d) w2) [
          | inl (yes_sent, goes_on) ↦
              rw (goes_on, yes_sent) (drive-transmit (next (pos 0)) k' d w2 r2)
          | inr (no_sent, stops) ↦ rw (stops, no_sent) (raises (refl, r2))
        ])
