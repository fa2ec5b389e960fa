-- ===== src/Together/Places.antt =====
-- Where a service is, what it has on the stack of `LL` there, and what it has sent.
use lua_kcp_skynet.Prelude.{
  Bool-cases, ℕ, Bool, true, false, List, [], ◌∷◌, ◌++◌, ◌≡◌, ◌≢◌, ◌⊎◌, inl, inr, refl,
}
use lua_kcp_skynet.Prelude.Int.{pos}
use lua_kcp_skynet.Api.Lua.{Bytes, Value, integer, string, function}
use lua_kcp_skynet.Addresses.{Datagram}
use lua_kcp_skynet.Together.{
  beside, points, uses_ll, Pc, lock, get_global, is_function, push_conv, push_buf, call,
  check_string, pop, send, unlock, done, failed, Service,
}

-- Where a service is after its next step, if that raises no error.
abbrev pub advance : Pc → Pc
advance lock = get_global
advance get_global = is_function
advance is_function = push_conv
advance push_conv = push_buf
advance push_buf = call
advance call = check_string
advance check_string = pop
advance pop = send
advance send = unlock
advance unlock = done
advance done = done
advance (failed e) = failed e

-- Between `lua_getglobal` and the last use of the packed bytes.
abbrev pub inside : Pc → Bool
inside is_function = true
inside push_conv = true
inside push_buf = true
inside call = true
inside check_string = true
inside pop = true
inside send = true
inside _ = false

abbrev pub packed_at : Pc → Bytes → Bytes
packed_at pop r = r
packed_at send r = r
packed_at unlock r = r
packed_at done r = r
packed_at _ r = []

-- A service as it should be there, with the packed bytes r.
abbrev pub at : Pc → Bytes → Service → Service
at pc r s = record s { packed = packed_at pc r; pc = pc; stale = false }

-- What the service has on the stack of `LL` there.
abbrev pub part : ℕ → Pc → Bytes → Service → List Value
part f is_function r s = function f ∷ []
part f push_conv r s = function f ∷ []
part f push_buf r s = function f ∷ integer (pos s.conv) ∷ []
part f call r s = function f ∷ integer (pos s.conv) ∷ string s.buf ∷ []
part f check_string r s = string r ∷ []
part f pop r s = string r ∷ []
part f _ r s = []

-- What it has sent.
abbrev pub delivered : Pc → Bytes → Service → List Datagram
delivered unlock r s = s.envelope r ∷ []
delivered done r s = s.envelope r ∷ []
delivered _ r s = []

-- What it sends with its next step.
abbrev pub emitted : Pc → Bytes → Service → List Datagram
emitted send r s = s.envelope r ∷ []
emitted _ r s = []

-- A step outside leaves a service outside; there it has nothing on the stack.
pub advance-outside : (pc : Pc) → inside pc ≡ false → pc ≢ get_global → inside (advance pc) ≡ false
advance-outside lock out ne = refl
advance-outside get_global out ne = absurd (ne refl)
advance-outside is_function out ne = cc
advance-outside push_conv out ne = cc
advance-outside push_buf out ne = cc
advance-outside call out ne = cc
advance-outside check_string out ne = cc
advance-outside pop out ne = cc
advance-outside send out ne = cc
advance-outside unlock out ne = refl
advance-outside done out ne = refl
advance-outside (failed e) out ne = refl

pub part-outside :
    (f : ℕ) (pc : Pc) (r : Bytes) (s : Service) → inside pc ≡ false → part f pc r s ≡ []
part-outside f lock r s out = refl
part-outside f get_global r s out = refl
part-outside f is_function r s out = cc
part-outside f push_conv r s out = cc
part-outside f push_buf r s out = cc
part-outside f call r s out = cc
part-outside f check_string r s out = cc
part-outside f pop r s out = cc
part-outside f send r s out = cc
part-outside f unlock r s out = refl
part-outside f done r s out = refl
part-outside f (failed e) r s out = refl

-- What was sent and what is sent next is what was sent afterwards; what is sent is sent once.
pub delivered-advance :
    (pc : Pc) (r : Bytes) (s : Service)
    → delivered (advance pc) r s ≡ emitted pc r s ++ delivered pc r s
delivered-advance lock r s = refl
delivered-advance get_global r s = refl
delivered-advance is_function r s = refl
delivered-advance push_conv r s = refl
delivered-advance push_buf r s = refl
delivered-advance call r s = refl
delivered-advance check_string r s = refl
delivered-advance pop r s = refl
delivered-advance send r s = refl
delivered-advance unlock r s = refl
delivered-advance done r s = refl
delivered-advance (failed e) r s = refl

pub emitted_first :
    (pc : Pc) (r : Bytes) (s : Service) → (emitted pc r s ≡ []) ⊎ (delivered pc r s ≡ [])
emitted_first lock r s = inl refl
emitted_first get_global r s = inl refl
emitted_first is_function r s = inl refl
emitted_first push_conv r s = inl refl
emitted_first push_buf r s = inl refl
emitted_first call r s = inl refl
emitted_first check_string r s = inl refl
emitted_first pop r s = inl refl
emitted_first send r s = inr refl
emitted_first unlock r s = inl refl
emitted_first done r s = inl refl
emitted_first (failed e) r s = inl refl

-- A service outside needs no pointer, and a step outside leads to no call on `LL`.
pub points-outside : (y : Pc) → inside y ≡ false → points y ≡ false
points-outside lock out = refl
points-outside get_global out = refl
points-outside is_function out = refl
points-outside push_conv out = refl
points-outside push_buf out = refl
points-outside call out = refl
points-outside check_string out = refl
points-outside pop out = cc
points-outside send out = cc
points-outside unlock out = refl
points-outside done out = refl
points-outside (failed e) out = refl

uses_ll-outside : (x : Pc) → inside x ≡ false → x ≢ get_global → uses_ll x ≡ false
uses_ll-outside lock out ne = refl
uses_ll-outside get_global out ne = absurd (ne refl)
uses_ll-outside is_function out ne = cc
uses_ll-outside push_conv out ne = cc
uses_ll-outside push_buf out ne = cc
uses_ll-outside call out ne = cc
uses_ll-outside check_string out ne = cc
uses_ll-outside pop out ne = cc
uses_ll-outside send out ne = refl
uses_ll-outside unlock out ne = refl
uses_ll-outside done out ne = refl
uses_ll-outside (failed e) out ne = refl

pub beside-outside : (x : Pc) (s : Service) → inside x ≡ false → x ≢ get_global → beside x s ≡ s
beside-outside x s out ne = elim (Bool-cases (points s.pc)) [
  | inl needs ↦ rw (needs, uses_ll-outside x out ne) refl
  | inr idle ↦ rw idle refl
]
