-- ===== src/Together/Order.antt =====
-- The datagrams of two services, in the order in which they were sent.
use mathlib.Core.List.{append_assoc, append-nil}
use lua_kcp_skynet.Prelude.{List, [], ◌++◌, ◌≡◌, ◌⊎◌, inl, inr, refl, sym, ◌∙◌}
use lua_kcp_skynet.Addresses.{Datagram}

-- What was sent is one's datagrams and the other's, after the older ones.
abbrev pub InOrder : (mine other old sent : List Datagram) → Type 0
InOrder mine other old sent = (sent ≡ mine ++ (other ++ old)) ⊎ (sent ≡ other ++ (mine ++ old))

pub InOrder-swapped :
    (mine other old : List Datagram) {sent : List Datagram}
    → InOrder mine other old sent
    → InOrder other mine old sent
InOrder-swapped mine other old (inl e) = inr e
InOrder-swapped mine other old (inr e) = inl e

-- One of the two has sent something more, and sends only once.
pub InOrder-more :
    {mine mine' now : List Datagram} (other old : List Datagram) {sent sent' : List Datagram}
    → sent' ≡ now ++ sent
    → mine' ≡ now ++ mine
    → (now ≡ []) ⊎ (mine ≡ [])
    → InOrder mine other old sent
    → InOrder mine' other old sent'
InOrder-more {mine} {now = now} other old e e' once (inl h) =
    inl (e ∙ rw (h, e') (sym (append_assoc now mine (other ++ old))))
InOrder-more other old e e' (inl quiet_now) (inr h) = inr (e ∙ rw (h, e', quiet_now) refl)
InOrder-more other old e e' (inr none_yet) (inr h) = inl (e ∙ rw (h, e', none_yet, append-nil) refl)
