-- ===== src/Examples/Loopback.antt =====
-- A control block that sends what it was given, and hands on what was put into it.
use lua_kcp_skynet.Prelude.{
  ℕ, ◌≤◌, List, [], ◌∷◌, ◌++◌, none, some, ◌≡◌, true, arith, length, leb, if◌then◌else◌,
}
use lua_kcp_skynet.Prelude.Int.{ℤ, pos, negsuc, pos_part, ltb_ℤ}
use lua_kcp_skynet.Api.Lua.{Bytes}
use lua_kcp_skynet.Api.Kcp.{KcpApi, IsLawful, Run, finish, emit}

pub record Ctl : Type 0 where
  pub conv : ℕ
  pub waiting : List Bytes
  pub arrived : List Bytes

abbrev take_next : List Bytes → ℕ → Ctl → ℤ × Bytes × Ctl
take_next [] len k = (negsuc 0, [], k)
take_next (m ∷ ms) len k =
    if leb (length m) len then (pos (length m), m, record k { arrived = ms }) else (negsuc 2, [], k)

abbrev send_all : List Bytes → Ctl → Run Ctl
send_all [] k = finish k
send_all (m ∷ ms) k =
    emit m (record k { waiting = ms }) (λ _. send_all ms (record k { waiting = ms }))

abbrev pub loopback : KcpApi
loopback = record {
  Ctl = Ctl;
  create = λ conv.
      if leb 1 conv then some (record { conv = conv; waiting = []; arrived = [] }) else none;
  conv = λ k. k.conv;
  recv = λ k len. take_next k.arrived (pos_part len) k;
  send = λ k m len. (pos 0, record k { waiting = k.waiting ++ m ∷ [] });
  input = λ k m len. (pos 0, record k { arrived = k.arrived ++ m ∷ [] });
  update = λ k now. send_all k.waiting k;
  flush = λ k. send_all k.waiting k;
  check = λ k now. now;
  wndsize = λ k s r. k;
  nodelay = λ k a b c d. (pos 0, k);
}

take_next-fits : (ms : List Bytes) (len : ℕ) (k : Ctl) → length (take_next ms len k).1 ≤ len
take_next-fits [] len k = omega arith
take_next-fits (m ∷ ms) len k = ground arith

take_next-counts :
    (ms : List Bytes) (len : ℕ) (k : Ctl)
    → ltb_ℤ (pos 0) (take_next ms len k).0 ≡ true
    → (take_next ms len k).0 ≡ pos (length (take_next ms len k).1)
take_next-counts [] len k h = cc
take_next-counts (m ∷ ms) len k h = ground arith

pub loopback-IsLawful : IsLawful loopback
loopback-IsLawful = record {
  recv-fits = λ k len. take_next-fits k.arrived len k;
  recv-counts = λ k len h. take_next-counts k.arrived len k h;
}
