-- ===== src/Machine/Args.antt =====
-- A function whose first argument need not be a connection.
use lua_kcp_skynet.Prelude.{ℕ, Option, none, some, ◌≡◌, inl, inr, Option-cases}
use lua_kcp_skynet.Heap.{Ptr}
use lua_kcp_skynet.Outcome.{Cmd, ◌>>=◌}
use lua_kcp_skynet.Outcome.Rules.{Ends, returns, raises}
use lua_kcp_skynet.Api.Lua.{
  Value, nil, integer, string, function, kcp, recv_buffer, light, other, LuaApi,
}
use lua_kcp_skynet.Api.Kcp.{KcpApi}
use lua_kcp_skynet.Machine.{Machine, slot, guarded, check_kcp, not_args, push, in_slot, as_kcp}

-- The connection that a value holds.
pub kcp_of : (o : Option Value) (q : Option Ptr) → in_slot as_kcp o ≡ some q → o ≡ some (kcp q)
kcp_of none q e = cc
kcp_of (some nil) q e = cc
kcp_of (some (integer n)) q e = cc
kcp_of (some (string x)) q e = cc
kcp_of (some (function f)) q e = cc
kcp_of (some (kcp p)) q e = cc
kcp_of (some recv_buffer) q e = cc
kcp_of (some (light p)) q e = cc
kcp_of (some (other n)) q e = cc

-- An invariant that says nothing of the virtual machine.
module _ {L : LuaApi} {K : KcpApi} {Cb S : Type 0} (I : Machine L K Cb S → Type 0)
    (on_vm : (w : Machine L K Cb S) (m : L.Vm) → I w → I (record w { vm = m })) where
  -- A method keeps it if it does so on a connection: with a first argument that is none it raises an
  -- error, and with one that was never made it returns a message.
  pub guarded-any :
      (t : ℕ) (body : Ptr → Cmd (Machine L K Cb S) ℕ) (w : Machine L K Cb S)
      → I w
      → ((p : Ptr) → slot t 1 w ≡ some (kcp (some p)) → Ends (λ _. I) I (guarded t body w))
      → Ends (λ _. I) I (guarded t body w)
  unfolding guarded check_kcp not_args push
  guarded-any t body w s on_connection = elim (Option-cases (in_slot as_kcp (slot t 1 w))) [
    | inl e ↦ rw (e, ◌>>=◌) (raises s)
    | inr (none, e) ↦ rw (e, ◌>>=◌) (returns (on_vm w _ s))
    | inr (some p, e) ↦ on_connection p (kcp_of (slot t 1 w) (some p) e)
  ]
