-- ===== src/Addresses/Fill.antt =====
-- What an address block holds once it is cleared and filled.
use lua_kcp_skynet.Prelude.{
  ℕ, zero, suc, ◌+◌, true, [], ◌∷◌, ◌++◌, map, none, some, length, length-replicate, replicate, leb,
  ◌≡◌, refl, sym, ap, ◌∙◌, arith,
}
use lua_kcp_skynet.Heap.{Ptr, Heap, load, alloc, write}
use lua_kcp_skynet.Heap.Laws.{load-write, load-alloc, write-alloc, write-write}
use lua_kcp_skynet.Outcome.{ok, pure, ◌>>=◌, and_then}
use lua_kcp_skynet.Outcome.Rules.{and_then_assoc}
use lua_kcp_skynet.Api.Lua.{Bytes, LuaApi}
use lua_kcp_skynet.Api.Kcp.{KcpApi}
use lua_kcp_skynet.Addresses.{
  Block, World, clear, copy, malloc, update_block, memset_zero, memcpy, new_address,
}

-- The bytes of a C string with its NUL.
abbrev pub c_string : Bytes → Block
c_string bytes = map some bytes ++ some 0 ∷ []

copy-clear :
    (block : Block) (bytes : Bytes)
    → length block ≡ suc (length bytes)
    → copy (clear block (suc (length bytes))) bytes ≡ c_string bytes
copy-clear [] bytes e = absurd (omega (arith, e))
copy-clear (x ∷ []) [] e = refl
copy-clear (x ∷ y ∷ block) [] e = absurd (omega (arith, e))
copy-clear (x ∷ block) (b ∷ bytes) e =
    ap (λ (t : Block). some b ∷ t) (copy-clear block bytes (omega (arith, e)))

filled :
    (block : Block) (bytes : Bytes)
    → length block ≡ length bytes + 1
    → copy (clear block (length bytes + 1)) bytes ≡ c_string bytes
filled block bytes e =
    let one : length bytes + 1 ≡ suc (length bytes) = omega arith in
    rw one (copy-clear block bytes (omega (arith, e)))

length-clear : (block : Block) (n : ℕ) → length block ≡ n → length (clear block n) ≡ n
length-clear [] zero e = refl
length-clear [] (suc n) e = absurd (omega (arith, e))
length-clear (x ∷ block) zero e = absurd (omega (arith, e))
length-clear (x ∷ block) (suc n) e = omega (arith, length-clear block n (omega (arith, e)))

module _ {L : LuaApi} {K : KcpApi} where
  abbrev pub with_addresses : World L K → Heap Block → World L K
  with_addresses w h = record w { statics = record (w.statics) { addresses = h } }

  pub update_block-ok :
      (n : ℕ) (f : Block → Block) (a : Ptr) (block : Block) (w : World L K)
      → load w.statics.addresses a ≡ some block
      → leb n (length block) ≡ true
      → update_block n f (some a) w
        ≡ ok tt (with_addresses w (write w.statics.addresses a (f block)))
  unfolding update_block
  update_block-ok n f a block w e fits = rw (e, ◌>>=◌, fits)

  -- A block that is cleared and then filled holds the bytes and a NUL.
  pub fill-ok :
      (a : Ptr) (block : Block) (bytes : Bytes) (w : World L K)
      → load w.statics.addresses a ≡ some block
      → length block ≡ length bytes + 1
      → and_then (memset_zero (some a) (length bytes + 1) w) (λ _. memcpy (some a) bytes)
        ≡ ok tt (with_addresses w (write w.statics.addresses a (c_string bytes)))
  unfolding memset_zero memcpy
  fill-ok a block bytes w e size =
      rw
        (update_block-ok (length bytes + 1) (λ b. clear b (length bytes + 1)) a block w e
          (ground (arith, size)))
        (update_block-ok (length bytes) (λ b. copy b bytes) a (clear block (length bytes + 1))
            (with_addresses w (write w.statics.addresses a (clear block (length bytes + 1))))
            (load-write w.statics.addresses a (clear block (length bytes + 1)) block e)
            (ground (arith, length-clear block (length bytes + 1) size))
          ∙ ap (λ (h : Heap Block). ok tt (with_addresses w h))
              (write-write w.statics.addresses a (clear block (length bytes + 1))
                  (copy (clear block (length bytes + 1)) bytes)
                ∙ ap (write w.statics.addresses a) (filled block bytes size)))

  pub new_address-ok :
      (bytes : Bytes) (w : World L K)
      → new_address bytes w
        ≡ ok
            (alloc w.statics.addresses (c_string bytes)).0
            (with_addresses w (alloc w.statics.addresses (c_string bytes)).1)
  unfolding new_address malloc alloc
  new_address-ok bytes w =
      let h = w.statics.addresses in
      let raw : Block = replicate (length bytes + 1) none in
      let w1 = with_addresses w (alloc h raw).1 in
      sym (
        and_then_assoc (memset_zero (some (alloc h raw).0) (length bytes + 1) w1)
          (λ _. memcpy (some (alloc h raw).0) bytes) (λ _. pure (alloc h raw).0))
      ∙ rw
          (fill-ok (alloc h raw).0 raw bytes w1 (load-alloc h raw)
            (length-replicate (length bytes + 1) none))
          (ap (λ (h' : Heap Block). ok (alloc h raw).0 (with_addresses w h'))
            (write-alloc h raw (c_string bytes)))
