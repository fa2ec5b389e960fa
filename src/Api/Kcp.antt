-- ===== src/Api/Kcp.antt =====
-- The KCP library (ikcp.h), as far as the bindings call it. A control block is of an unknown type.
use lua_kcp_skynet.Prelude.{ℕ, ◌≤◌, ◌≡◌, true, Option, length}
use lua_kcp_skynet.Prelude.Int.{ℤ, pos, ltb_ℤ}
use lua_kcp_skynet.Api.Lua.{Bytes}

-- A run of `ikcp_update` or `ikcp_flush`: it ends with a control block, or calls `kcp->output`
-- on a packet, the control block as it is then, and goes on with the callback's result.
pub data Run (Ctl : Type 0) : Type 0 where
  finish : Ctl → Run Ctl
  emit : Bytes → Ctl → (ℤ → Run Ctl) → Run Ctl

pub record KcpApi : Type 1 where
  pub Ctl : Type 0
  pub create : ℕ → Option Ctl
  pub conv : Ctl → ℕ
  -- ikcp_recv(kcp, buffer, len): the result and the bytes put at the buffer's start
  pub recv : Ctl → ℤ → ℤ × Bytes × Ctl
  pub send : Ctl → Bytes → ℤ → ℤ × Ctl
  pub input : Ctl → Bytes → ℤ → ℤ × Ctl
  pub update : Ctl → ℕ → Run Ctl
  pub flush : Ctl → Run Ctl
  pub check : Ctl → ℕ → ℕ
  pub wndsize : Ctl → ℤ → ℤ → Ctl
  pub nodelay : Ctl → ℤ → ℤ → ℤ → ℤ → ℤ × Ctl

-- What the bindings rely on: a receive writes no more than the buffer's length and reports as
-- many bytes as it wrote.
pub record IsLawful (K : KcpApi) : Type 0 where
  pub recv-fits : (k : K.Ctl) (len : ℕ) → length (K.recv k (pos len)).1 ≤ len
  pub recv-counts :
      (k : K.Ctl) (len : ℕ)
      → ltb_ℤ (pos 0) (K.recv k (pos len)).0 ≡ true
      → (K.recv k (pos len)).0 ≡ pos (length (K.recv k (pos len)).1)
