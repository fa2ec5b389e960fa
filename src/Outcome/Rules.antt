-- ===== src/Outcome/Rules.antt =====
-- A run that ends without undefined behaviour: what holds after a return, and after a Lua error.
use lua_kcp_skynet.Prelude.{Option, none, some, ◌≡◌, refl}
use lua_kcp_skynet.Outcome.{
  LuaError, Outcome, ok, raised, fault, Cmd, and_then, pure, raise, or_raise, ◌>>=◌,
}

pub data Ends {W A : Type 0} (P : A → W → Type 0) (E : W → Type 0) : Outcome W A → Type 0 where
  returns : {a : A} {w : W} → P a w → Ends P E (ok a w)
  raises : {e : LuaError} {w : W} → E w → Ends P E (raised e w)

module _ {W A : Type 0} {P : A → W → Type 0} {E : W → Type 0} where
  pub bind :
      {B : Type 0} {Q : B → W → Type 0} {m : Outcome W A} {k : A → Cmd W B}
      → Ends P E m
      → ((a : A) (w : W) → P a w → Ends Q E (k a w))
      → Ends Q E (and_then m k)
  bind (returns p) next = next _ _ p
  bind (raises e) next = raises e

  pub mono :
      {Q : A → W → Type 0} {F : W → Type 0} {m : Outcome W A}
      → Ends P E m
      → ((a : A) (w : W) → P a w → Q a w)
      → ((w : W) → E w → F w)
      → Ends Q F m
  mono (returns p) f g = returns (f _ _ p)
  mono (raises e) f g = raises (g _ e)

  -- What two proofs say of the same run.
  pub both :
      {Q : A → W → Type 0} {F : W → Type 0} {m : Outcome W A}
      → Ends P E m
      → Ends Q F m
      → Ends (λ a w. P a w × Q a w) (λ w. E w × F w) m
  both (returns p) (returns q) = returns (p, q)
  both (raises e) (raises f) = raises (e, f)

  pub not_fault : {m : Outcome W A} → Ends P E m → ¬ (m ≡ fault)
  not_fault (returns p) e = cc
  not_fault (raises p) e = cc

  pub of_ok : {m : Outcome W A} {a : A} {w : W} → m ≡ ok a w → P a w → Ends P E m
  of_ok {a} {w} e p = rw e (returns p)

pub ok-injective : {W A : Type 0} {a b : A} {v w : W} → ok a v ≡ ok b w → v ≡ w
ok-injective e = cc

-- An operation after which, whichever way it ends, the property still holds.
pub record Keeps {W A : Type 0} (I : W → Type 0) (m : Cmd W A) : Type 0 where
  pub keep : (w : W) → I w → Ends (λ _. I) I (m w)

module _ {W A : Type 0} {I : W → Type 0} where
  pub Keeps-bind :
      {B : Type 0} {m : Cmd W A} {k : A → Cmd W B}
      → Keeps I m
      → ((a : A) → Keeps I (k a))
      → Keeps I (m >>= k)
  Keeps-bind f g = record { keep = λ w i. bind (f.keep w i) (λ a w'. (g a).keep w') }

  -- The same, as an operator that chains the steps of a `do` block.
  infixr 6 ◌⨾◌
  pub ◌⨾◌ :
      {B : Type 0} {m : Cmd W A} {k : A → Cmd W B}
      → Keeps I m
      → ((a : A) → Keeps I (k a))
      → Keeps I (m >>= k)
  f ⨾ g = Keeps-bind f g

  pub Keeps-pure : (a : A) → Keeps I (pure a)
  Keeps-pure a = record { keep = λ w i. returns i }

  pub Keeps-raise : (e : LuaError) → Keeps {A = A} I (raise e)
  Keeps-raise e = record { keep = λ w i. raises i }

  pub or_raise-Ends : (o : Option A) (e : LuaError) (w : W) → I w → Ends (λ _. I) I (or_raise o e w)
  or_raise-Ends none e w i = raises i
  or_raise-Ends (some a) e w i = returns i

pub ruleset keeps = (Keeps-bind, Keeps-pure, Keeps-raise)

pub and_then_assoc :
    {W A B C : Type 0} (m : Outcome W A) (k : A → Cmd W B) (h : B → Cmd W C)
    → and_then (and_then m k) h ≡ and_then m (λ a w. and_then (k a w) h)
and_then_assoc (ok a w) k h = refl
and_then_assoc (raised e w) k h = refl
and_then_assoc fault k h = refl
