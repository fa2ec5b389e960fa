-- ===== src/Lkcpsn/Sessions/Spec.antt =====
-- What lkcpsn.c promises its users: a table of sessions that changes in four ways.
use native.Mathlib.Decide.{ℕ_discrete}
use lua_kcp_skynet.Prelude.{
  ℕ, ◌≤◌, [], ◌∷◌, none, some, ◌≡◌, ◌≢◌, inl, inr, refl, sym, ap, subst, ◌∙◌, same, arith, length,
}
use lua_kcp_skynet.Heap.{Ptr}
use lua_kcp_skynet.Api.Lua.{Bytes}
use lua_kcp_skynet.Api.Kcp.{KcpApi}
use lua_kcp_skynet.Addresses.{Block}
use lua_kcp_skynet.Addresses.Fill.{c_string}
use lua_kcp_skynet.Lkcpsn.Sessions.{Session, Table}
use lua_kcp_skynet.Lkcpsn.Sessions.Steps.{Unchanged, Fresh, Changed, Gone}

-- One step of the table.
pub data Step {K : KcpApi} (T T' : Table K) : Type 0 where
  stay : Unchanged T T' → Step T T'
  add : (conv : ℕ) (address : Bytes) → 2 ≤ length address → Fresh conv address T T' → Step T T'
  change : (p : Ptr) → Changed p T T' → Step T T'
  remove : (p : Ptr) → Gone p T T' → Step T T'

-- The tables that can be reached from one without sessions.
pub data Reached {K : KcpApi} : Table K → Type 0 where
  start : {T : Table K} → ((p : Ptr) → T p ≡ none) → Reached T
  later : {T T' : Table K} → Reached T → Step T T' → Reached T'

-- A string that is not empty, with its NUL.
abbrev pub IsText : Block → Type 0
IsText x = (n : ℕ) × (ns : Bytes) × (x ≡ c_string (n ∷ ns))

abbrev pub Named : {K : KcpApi} → Table K → Type 0
Named {K} T = (p : Ptr) (x : Session K) → T p ≡ some x → IsText x.address

long-IsText : (s : Bytes) → 2 ≤ length s → IsText (c_string s)
long-IsText [] h = absurd (omega arith)
long-IsText (n ∷ ns) h = (n, ns, refl)

module _ {K : KcpApi} (T T' : Table K) (named : Named T) where
  Unchanged-Named : Unchanged T T' → Named T'
  Unchanged-Named same_at p x e = named p x (sym (same_at p) ∙ e)

  -- All entries but one are as they were, and that one has such an address.
  but_one :
      (p : Ptr)
      → ((q : Ptr) → p ≢ q → T' q ≡ T q)
      → ((x : Session K) → T' p ≡ some x → IsText x.address)
      → Named T'
  but_one p others own q x e = elim (ℕ_discrete p q) [
    | yes is ↦ own x (ap T' is ∙ e)
    | no differ ↦ named q x (sym (others q differ) ∙ e)
  ]

  Step-Named : Step T T' → Named T'
  Step-Named (stay same_at) = Unchanged-Named same_at
  Step-Named (add conv address enough a) = but_one a.p a.others (λ x e.
      let is : c_string address ≡ x.address =
        ap (λ (z : Session K). z.address) (same (sym a.new ∙ e)) in
      subst IsText is (long-IsText address enough))
  Step-Named (change p u) = but_one p u.others (λ x e.
      let is : u.new.address ≡ x.address =
        ap (λ (z : Session K). z.address) (same (sym u.is ∙ e)) in
      subst IsText is (elim u.address [
        | inl kept ↦ subst IsText (sym kept) (named p u.old u.was)
        | inr text ↦ text
      ]))
  Step-Named (remove p r) = but_one p r.others (λ x e. let gone = r.is in cc)

pub Reached-Named : {K : KcpApi} {T : Table K} → Reached T → Named T
Reached-Named (start empty) = λ p x e. let none_at = empty p in cc
Reached-Named (later {T} {T'} r s) = Step-Named T T' (Reached-Named r) s
