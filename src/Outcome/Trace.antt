-- ===== src/Outcome/Trace.antt =====
-- Sequences of calls, each of which may end by an error: the states that can be reached.
use lua_kcp_skynet.Outcome.{LuaError, Outcome, Cmd, ok, raised}
use lua_kcp_skynet.Outcome.Rules.{Ends, returns, raises}

-- The state after a call that returned or raised an error.
pub data EndsIn {W A : Type 0} (w' : W) : Outcome W A → Type 0 where
  returned : {a : A} → EndsIn w' (ok a w')
  left : {e : LuaError} → EndsIn w' (raised e w')

EndsIn-of :
    {W A : Type 0} {P : W → Type 0} {o : Outcome W A} {w' : W}
    → EndsIn w' o
    → Ends (λ _. P) P o
    → P w'
EndsIn-of returned (returns p) = p
EndsIn-of left (raises p) = p

-- `run` is what a call does, and `Allowed` what it needs; `Elsewhere` is what may happen between two
-- calls.
module _ {W A C : Type 0} (run : C → Cmd W A) (Allowed : C → W → Type 0) (Start : W → Type 0)
    (Elsewhere : W → W → Type 0) where
  pub data Step (w w' : W) : Type 0 where
    call : (f : C) → Allowed f w → EndsIn w' (run f w) → Step w w'
    elsewhere : Elsewhere w w' → Step w w'

  pub data Reach : W → Type 0 where
    start : {w : W} → Start w → Reach w
    later : {w w' : W} → Reach w → Step w w' → Reach w'

  module _ (I : W → Type 0) (at_start : (w : W) → Start w → I w)
      (kept : (w w' : W) → Elsewhere w w' → I w → I w')
      (safe : (f : C) (w : W) → Allowed f w → I w → Ends (λ _. I) I (run f w)) where
    Step-keeps : {w w' : W} → Step w w' → I w → I w'
    Step-keeps {w} {w'} (call f a ends) i = EndsIn-of ends (safe f w a i)
    Step-keeps {w} {w'} (elsewhere e) i = kept w w' e i

    pub Reach-keeps : {w : W} → Reach w → I w
    Reach-keeps {w} (start s) = at_start w s
    Reach-keeps (later r st) = Step-keeps st (Reach-keeps r)

    and_reached :
        (o : Outcome W A)
        → ((w' : W) → EndsIn w' o → Reach w')
        → Ends (λ _. I) I o
        → Ends (λ _ w'. Reach w' × I w') (λ w'. Reach w' × I w') o
    and_reached o r (returns s) = returns (r _ returned, s)
    and_reached o r (raises s) = raises (r _ left, s)

    -- An allowed call in a state that can be reached ends, in such a state.
    pub run-keeps :
        (f : C) (w : W)
        → Reach w
        → Allowed f w
        → Ends (λ _ w'. Reach w' × I w') (λ w'. Reach w' × I w') (run f w)
    run-keeps f w r a =
        and_reached (run f w) (λ w' ends. later r (call f a ends)) (safe f w a (Reach-keeps r))
