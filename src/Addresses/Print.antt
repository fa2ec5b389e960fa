-- ===== src/Addresses/Print.antt =====
-- When `print_address` stays within the address block.
use lua_kcp_skynet.Prelude.{
  ℕ, zero, suc, ◌+◌, ◌≤◌, ◌<◌, true, false, ◌++◌, [], ◌∷◌, Option, none, some, ◌≡◌, refl, ap,
  length, map, take, drop, leb, ◌==◌, arith, inl, inr, Bool-cases,
}
use lua_kcp_skynet.Heap.{Ptr, load}
use lua_kcp_skynet.Outcome.{ok, fault, ◌>>=◌}
use lua_kcp_skynet.Api.Lua.{Bytes, LuaApi}
use lua_kcp_skynet.Api.Kcp.{KcpApi}
use lua_kcp_skynet.Addresses.{
  Block, World, Printed, Family, af_inet, af_inet6, read_bytes, print_host, print_address,
  all_written, family_of, ntohs,
}
use lua_kcp_skynet.Addresses.Fill.{c_string}

c_string-map : (bytes : Bytes) → c_string bytes ≡ map some (bytes ++ 0 ∷ [])
c_string-map [] = refl
c_string-map (b ∷ bytes) = ap (λ (t : Block). some b ∷ t) (c_string-map bytes)

drop-map :
    (n : ℕ) (bytes : Bytes) → drop n (map {B = Option ℕ} some bytes) ≡ map some (drop n bytes)
drop-map zero bytes = refl
drop-map (suc n) [] = refl
drop-map (suc n) (b ∷ bytes) = drop-map n bytes

take-map :
    (n : ℕ) (bytes : Bytes) → take n (map {B = Option ℕ} some bytes) ≡ map some (take n bytes)
take-map zero bytes = refl
take-map (suc n) [] = refl
take-map (suc n) (b ∷ bytes) = ap (λ (t : Block). some b ∷ t) (take-map n bytes)

all_written-map : (bytes : Bytes) → all_written (map some bytes) ≡ some bytes
all_written-map [] = refl
all_written-map (b ∷ bytes) = rw (all_written-map bytes) refl

pub length-c_string : (bytes : Bytes) → length (c_string bytes) ≡ length bytes + 1
length-c_string [] = refl
length-c_string (b ∷ bytes) = omega (arith, length-c_string bytes)

module _ {L : LuaApi} {K : KcpApi} (a : Ptr) (bytes : Bytes) (w : World L K)
    (content : load w.statics.addresses a ≡ some (c_string bytes)) where
  read_bytes-ok :
      (off n : ℕ)
      → off + n ≤ length bytes + 1
      → read_bytes a off n w ≡ ok (take n (drop off (bytes ++ 0 ∷ []))) w
  unfolding read_bytes
  read_bytes-ok off n within =
      let fits : leb (off + n) (length (c_string bytes)) ≡ true =
        ground (arith, length-c_string bytes) in
      rw (content, ◌>>=◌, fits, c_string-map bytes, drop-map, take-map, all_written-map)

  abbrev printed : ℕ → Family → ℕ → Printed
  printed port family n = record {
    family = family;
    host = take n (drop 3 (bytes ++ 0 ∷ []));
    port = port;
  }

  print_host-read :
      (port : ℕ) (family : Family) (n : ℕ)
      → 3 + n ≤ length bytes + 1
      → print_host a port (some (family, n)) w ≡ ok (some (printed port family n)) w
  unfolding print_host
  print_host-read port family n within = rw (◌>>=◌, read_bytes-ok 3 n within)

  print_host-ok :
      (port : ℕ) → (r : Option Printed) × (print_host a port (family_of (length bytes)) w ≡ ok r w)
  unfolding print_host
  print_host-ok port = elim (Bool-cases (length bytes == 7)) [
    | inl four ↦
        (some (printed port af_inet 4), rw four (print_host-read port af_inet 4 (ground arith)))
    | inr other ↦ elim (Bool-cases (length bytes == 19)) [
      | inl sixteen ↦ (
        some (printed port af_inet6 16),
        rw (other, sixteen) (print_host-read port af_inet6 16 (ground arith)),
      )
      | inr unknown ↦ (none, rw (other, unknown) refl)
    ]
  ]

  -- It reads two bytes before it looks at the size.
  pub print_address-ok :
      2 ≤ length bytes → (r : Option Printed) × (print_address a (length bytes) w ≡ ok r w)
  unfolding print_address
  print_address-ok enough =
      let (r, e) = print_host-ok (ntohs (take 2 (drop 1 (bytes ++ 0 ∷ [])))) in
      (r, rw (◌>>=◌, read_bytes-ok 1 2 (omega (arith, enough))) e)

  pub print_address-short : length bytes < 2 → (sz : ℕ) → print_address a sz w ≡ fault
  unfolding print_address read_bytes
  print_address-short short sz =
      let past : leb (1 + 2) (length (c_string bytes)) ≡ false =
        ground (arith, length-c_string bytes) in
      rw (content, ◌>>=◌, past)
