-- ===== src/Together/Walks.antt =====
-- Where schedules lead two services that keep apart, and how many turns are in them.
use lua_kcp_skynet.Prelude.{
  ℕ, zero, suc, ◌≤◌, ◌-◌, ◌+◌, Bool, true, false, List, [], ◌∷◌, ◌++◌, ◌≡◌, inl, inr, refl, ap,
  arith, replicate,
}
use lua_kcp_skynet.Together.{
  Pc, lock, get_global, is_function, push_conv, push_buf, call, check_string, pop, send, unlock,
  done, failed, Who, first, second,
}
use lua_kcp_skynet.Together.Places.{advance, inside}
use lua_kcp_skynet.Together.Schedules.{may_step, exclusive, walk_first, walk_second, and_true}
use lua_kcp_skynet.Together.Finish.{ahead, ahead-IsOver, turns_first, turns_second}

-- Not left by an error.
abbrev pub works : Pc → Bool
works (failed e) = false
works _ = true

pub works-advance : (x : Pc) → works x ≡ true → works (advance x) ≡ true
works-advance lock e = refl
works-advance get_global e = refl
works-advance is_function e = refl
works-advance push_conv e = refl
works-advance push_buf e = refl
works-advance call e = refl
works-advance check_string e = refl
works-advance pop e = refl
works-advance send e = refl
works-advance unlock e = refl
works-advance done e = refl
works-advance (failed x) e = cc

pub works-walk_first : (s : List Who) (x : Pc) → works x ≡ true → works (walk_first s x) ≡ true
works-walk_first [] x e = e
works-walk_first (first ∷ s) x e = works-walk_first s (advance x) (works-advance x e)
works-walk_first (second ∷ s) x e = works-walk_first s x e

pub works-walk_second : (s : List Who) (y : Pc) → works y ≡ true → works (walk_second s y) ≡ true
works-walk_second [] y e = e
works-walk_second (first ∷ s) y e = works-walk_second s y e
works-walk_second (second ∷ s) y e = works-walk_second s (advance y) (works-advance y e)

-- A schedule after another.
pub walk_first-append :
    (s t : List Who) (x : Pc) → walk_first (s ++ t) x ≡ walk_first t (walk_first s x)
walk_first-append [] t x = refl
walk_first-append (first ∷ s) t x = walk_first-append s t (advance x)
walk_first-append (second ∷ s) t x = walk_first-append s t x

pub walk_second-append :
    (s t : List Who) (y : Pc) → walk_second (s ++ t) y ≡ walk_second t (walk_second s y)
walk_second-append [] t y = refl
walk_second-append (first ∷ s) t y = walk_second-append s t y
walk_second-append (second ∷ s) t y = walk_second-append s t (advance y)

pub exclusive-append :
    (s t : List Who) (x y : Pc)
    → exclusive s x y ≡ true
    → exclusive t (walk_first s x) (walk_second s y) ≡ true
    → exclusive (s ++ t) x y ≡ true
exclusive-append [] t x y e e' = e'
exclusive-append (first ∷ s) t x y e e' =
    let (may, rest) = and_true (may_step x y) (exclusive s (advance x) y) e in
    rw may (exclusive-append s t (advance x) y rest e')
exclusive-append (second ∷ s) t x y e e' =
    let (may, rest) = and_true (may_step y x) (exclusive s x (advance y)) e in
    rw may (exclusive-append s t x (advance y) rest e')

-- Each step leaves one step less.
pub ahead-advance : (x : Pc) → works x ≡ true → ahead (advance x) ≡ ahead x - 1
ahead-advance lock e = omega arith
ahead-advance get_global e = omega arith
ahead-advance is_function e = omega arith
ahead-advance push_conv e = omega arith
ahead-advance push_buf e = omega arith
ahead-advance call e = omega arith
ahead-advance check_string e = omega arith
ahead-advance pop e = omega arith
ahead-advance send e = omega arith
ahead-advance unlock e = omega arith
ahead-advance done e = omega arith
ahead-advance (failed x) e = cc

pub ahead-done : (x : Pc) → works x ≡ true → ahead x ≡ 0 → x ≡ done
ahead-done x e none_left = elim (ahead-IsOver x none_left) [
  | inl is ↦ is
  | inr (error, is) ↦ let no : works x ≡ false = ap works is in cc
]

pub walk_first-done :
    (s : List Who) (x : Pc) → works x ≡ true → ahead x ≤ turns_first s → walk_first s x ≡ done
walk_first-done [] x e h = ahead-done x e (omega arith)
walk_first-done (first ∷ s) x e h =
    walk_first-done s (advance x) (works-advance x e) (omega (arith, ahead-advance x e))
walk_first-done (second ∷ s) x e h = walk_first-done s x e h

pub walk_second-done :
    (s : List Who) (y : Pc) → works y ≡ true → ahead y ≤ turns_second s → walk_second s y ≡ done
walk_second-done [] y e h = ahead-done y e (omega arith)
walk_second-done (first ∷ s) y e h = walk_second-done s y e h
walk_second-done (second ∷ s) y e h =
    walk_second-done s (advance y) (works-advance y e) (omega (arith, ahead-advance y e))

pub ahead_le : (x : Pc) → ahead x ≤ 10
ahead_le lock = omega arith
ahead_le get_global = omega arith
ahead_le is_function = omega arith
ahead_le push_conv = omega arith
ahead_le push_buf = omega arith
ahead_le call = omega arith
ahead_le check_string = omega arith
ahead_le pop = omega arith
ahead_le send = omega arith
ahead_le unlock = omega arith
ahead_le done = omega arith
ahead_le (failed x) = omega arith

-- What a schedule leaves is what was ahead, less the turns.
pub ahead-walk_first :
    (s : List Who) (x : Pc) → works x ≡ true → ahead x ≤ ahead (walk_first s x) + turns_first s
ahead-walk_first [] x e = omega arith
ahead-walk_first (first ∷ s) x e =
    omega (arith, ahead-advance x e, ahead-walk_first s (advance x) (works-advance x e))
ahead-walk_first (second ∷ s) x e = ahead-walk_first s x e

pub ahead-walk_second :
    (s : List Who) (y : Pc) → works y ≡ true → ahead y ≤ ahead (walk_second s y) + turns_second s
ahead-walk_second [] y e = omega arith
ahead-walk_second (first ∷ s) y e = ahead-walk_second s y e
ahead-walk_second (second ∷ s) y e =
    omega (arith, ahead-advance y e, ahead-walk_second s (advance y) (works-advance y e))

-- Nobody waits for a service that is outside.
pub may_step-free : (x y : Pc) → inside y ≡ false → may_step x y ≡ true
may_step-free lock y out = refl
may_step-free get_global y out = rw out refl
may_step-free is_function y out = refl
may_step-free push_conv y out = refl
may_step-free push_buf y out = refl
may_step-free call y out = refl
may_step-free check_string y out = refl
may_step-free pop y out = refl
may_step-free send y out = refl
may_step-free unlock y out = refl
may_step-free done y out = refl
may_step-free (failed e) y out = refl

pub exclusive-first :
    (n : ℕ) (x y : Pc) (rest : List Who)
    → inside y ≡ false
    → exclusive rest (walk_first (replicate n first) x) y ≡ true
    → exclusive (replicate n first ++ rest) x y ≡ true
exclusive-first zero x y rest out e = e
exclusive-first (suc n) x y rest out e =
    rw (may_step-free x y out) (exclusive-first n (advance x) y rest out e)

pub exclusive-second :
    (n : ℕ) (x y : Pc) (rest : List Who)
    → inside x ≡ false
    → exclusive rest x (walk_second (replicate n second) y) ≡ true
    → exclusive (replicate n second ++ rest) x y ≡ true
exclusive-second zero x y rest out e = e
exclusive-second (suc n) x y rest out e =
    rw (may_step-free y x out) (exclusive-second n x (advance y) rest out e)

pub turns_first-append : (s t : List Who) → turns_first (s ++ t) ≡ turns_first s + turns_first t
turns_first-append [] t = omega arith
turns_first-append (first ∷ s) t = omega (arith, turns_first-append s t)
turns_first-append (second ∷ s) t = turns_first-append s t

pub turns_second-append : (s t : List Who) → turns_second (s ++ t) ≡ turns_second s + turns_second t
turns_second-append [] t = omega arith
turns_second-append (first ∷ s) t = turns_second-append s t
turns_second-append (second ∷ s) t = omega (arith, turns_second-append s t)

pub firsts :
    (n : ℕ) → (turns_first (replicate n first) ≡ n) × (turns_second (replicate n first) ≡ 0)
firsts zero = (refl, refl)
firsts (suc n) = let (a, b) = firsts n in (ap suc a, b)

pub seconds :
    (n : ℕ) → (turns_first (replicate n second) ≡ 0) × (turns_second (replicate n second) ≡ n)
seconds zero = (refl, refl)
seconds (suc n) = let (a, b) = seconds n in (a, ap suc b)
