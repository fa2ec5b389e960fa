-- ===== src/Outcome.antt =====
-- How a C function that works on a state can end: it returns, it leaves by a Lua error (a `longjmp`,
-- the state as it is then), or it does what C leaves undefined, such as a read of freed memory.
pub mod Rules
pub mod Trace
use lua_kcp_skynet.Prelude.{ℕ, Option, none, some}

pub data LuaError : Type 0 where
  bad_argument : ℕ → LuaError
  bad_buffer : LuaError
  failed_call : LuaError
  address_invalid : LuaError
  ctx_invalid : LuaError
  pack_output_invalid : LuaError
  buffer_invalid : LuaError
  send_failed : LuaError

pub data Outcome (W A : Type 0) : Type 0 where
  ok : A → W → Outcome W A
  raised : LuaError → W → Outcome W A
  fault : Outcome W A

abbrev pub Cmd : Type 0 → Type 0 → Type 0
Cmd W A = W → Outcome W A

module _ {W A : Type 0} where
  abbrev pub pure : A → Cmd W A
  pure a w = ok a w

  abbrev pub raise : LuaError → Cmd W A
  raise e w = raised e w

  abbrev pub undefined : Cmd W A
  undefined w = fault

  -- A null pointer or a freed block is undefined behaviour where it is read.
  abbrev pub defined : Option A → Cmd W A
  defined none w = fault
  defined (some a) w = ok a w

  abbrev pub or_raise : Option A → LuaError → Cmd W A
  or_raise none e w = raised e w
  or_raise (some a) e w = ok a w

module _ {W A B : Type 0} where
  abbrev pub and_then : Outcome W A → (A → Cmd W B) → Outcome W B
  and_then (ok a w) k = k a w
  and_then (raised e w) k = raised e w
  and_then fault k = fault

  infixl 5 ◌>>=◌ ◌>>◌
  abbrev pub ◌>>=◌ : Cmd W A → (A → Cmd W B) → Cmd W B
  m >>= k = λ w. and_then (m w) k

  abbrev pub ◌>>◌ : Cmd W A → Cmd W B → Cmd W B
  m >> n = m >>= λ _. n
