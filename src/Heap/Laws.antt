-- ===== src/Heap/Laws.antt =====
-- What a read sees after each operation on the heap, and how many blocks are live.
use native.Mathlib.Decide.{ℕ_discrete}
use lua_kcp_skynet.Prelude.{
  length-set, zero, suc, ◌+◌, ◌<◌, ◌≡◌, refl, sym, ap, ◌∙◌, ◌≢◌, ◌⊎◌, inl, inr, [], ◌∷◌, none, some,
  arith, length, get_elem?-set_self, get_elem?-set_ne, get_elem?-append_last, set-set,
}
use lua_kcp_skynet.Heap.{Ptr, Heap, load, alloc, write, free, live}

module _ {A : Type 0} where
  pub load-lt : (h : Heap A) (p : Ptr) {a : A} → load h p ≡ some a → p < length h
  unfolding load
  load-lt [] p e = cc
  load-lt (x ∷ h) zero e = omega arith
  load-lt (x ∷ h) (suc p) e = omega (arith, load-lt h p e)

  pub load-alloc : (h : Heap A) (a : A) → load (alloc h a).1 (alloc h a).0 ≡ some a
  unfolding load alloc
  load-alloc h a = rw (get_elem?-append_last h (some a), load)

  pub load-alloc_old :
      (h : Heap A) (a : A) (p : Ptr) {b : A} → load h p ≡ some b → load (alloc h a).1 p ≡ some b
  unfolding load alloc
  load-alloc_old [] a p e = cc
  load-alloc_old (x ∷ h) a zero e = e
  load-alloc_old (x ∷ h) a (suc p) e = load-alloc_old h a p e

  -- A read after an allocation sees the new block or what was there before.
  pub load-alloc_cases :
      (h : Heap A) (a : A) (p : Ptr) → p ≢ (alloc h a).0 → load (alloc h a).1 p ≡ load h p
  unfolding load alloc
  load-alloc_cases [] a zero d = absurd (d refl)
  load-alloc_cases [] a (suc p) d = refl
  load-alloc_cases (x ∷ h) a zero d = refl
  load-alloc_cases (x ∷ h) a (suc p) d = load-alloc_cases h a p (λ e. d (omega arith))

  pub load-write :
      (h : Heap A) (p : Ptr) (a b : A) → load h p ≡ some b → load (write h p a) p ≡ some a
  unfolding load write
  load-write h p a b e = rw (get_elem?-set_self h p (some a) (load-lt h p e), load)

  pub load-write_ne : (h : Heap A) (p q : Ptr) (a : A) → p ≢ q → load (write h p a) q ≡ load h q
  unfolding load write
  load-write_ne h p q a d = rw (get_elem?-set_ne h (some a) d, load)

  -- A read after a write sees what was written or what was there.
  pub load-write_cases :
      (h : Heap A) (p q : Ptr) (a b x : A)
      → load h p ≡ some b
      → load (write h p a) q ≡ some x
      → ((p ≡ q) × (x ≡ a)) ⊎ (load h q ≡ some x)
  load-write_cases h p q a b x e r = elim (ℕ_discrete p q) [
    | yes s ↦
        let at_p : load (write h p a) p ≡ some x = ap (load (write h p a)) s ∙ r in
        inl (s, cc (load-write h p a b e))
    | no d ↦ inr (sym (load-write_ne h p q a d) ∙ r)
  ]

  pub load-free_self : (h : Heap A) (p : Ptr) → load (free h p) p ≡ none
  unfolding load free
  load-free_self [] p = refl
  load-free_self (x ∷ h) zero = refl
  load-free_self (x ∷ h) (suc p) = load-free_self h p

  pub load-free_ne : (h : Heap A) (p q : Ptr) → p ≢ q → load (free h p) q ≡ load h q
  unfolding load free
  load-free_ne h p q d = rw (get_elem?-set_ne h none d, load)

  pub load-free_cases :
      (h : Heap A) (p q : Ptr) (x : A) → load (free h p) q ≡ some x → (p ≢ q) × (load h q ≡ some x)
  load-free_cases h p q x r = elim (ℕ_discrete p q) [
    | yes s ↦
        let at_p : load (free h p) p ≡ some x = ap (load (free h p)) s ∙ r in
        absurd (cc (load-free_self h p))
    | no d ↦ (d, sym (load-free_ne h p q d) ∙ r)
  ]

  pub load-alloc_of :
      (h : Heap A) (a : A) (p : Ptr) (x : A)
      → load (alloc h a).1 p ≡ some x
      → ((p ≡ (alloc h a).0) × (x ≡ a)) ⊎ (load h p ≡ some x)
  load-alloc_of h a p x r = elim (ℕ_discrete p (alloc h a).0) [
    | yes s ↦
        let at_p : load (alloc h a).1 (alloc h a).0 ≡ some x =
          ap (load (alloc h a).1) (sym s) ∙ r in
        inl (s, cc (load-alloc h a))
    | no d ↦ inr (sym (load-alloc_cases h a p d) ∙ r)
  ]

  -- No live block has the address that is given out next.
  pub load-fresh : (h : Heap A) (a : A) → load h (alloc h a).0 ≡ none
  unfolding load alloc
  load-fresh [] a = refl
  load-fresh (x ∷ h) a = load-fresh h a

  pub write-alloc : (h : Heap A) (a b : A) → write (alloc h a).1 (alloc h a).0 b ≡ (alloc h b).1
  unfolding write alloc
  write-alloc [] a b = refl
  write-alloc (x ∷ h) a b = ap (λ (t : Heap A). x ∷ t) (write-alloc h a b)

  -- The address of the next block does not depend on what is put there.
  pub load-alloc_at : (h : Heap A) (a b : A) → load (alloc h b).1 (alloc h a).0 ≡ some b
  unfolding alloc
  load-alloc_at h a b = load-alloc h b

  -- A block that is freed at once leaves the others as they were.
  pub load-free-alloc :
      (h : Heap A) (a : A) (p : Ptr) → load (free (alloc h a).1 (alloc h a).0) p ≡ load h p
  load-free-alloc h a p = elim (ℕ_discrete (alloc h a).0 p) [
    | yes s ↦
        ap (load (free (alloc h a).1 (alloc h a).0)) (sym s)
        ∙ load-free_self (alloc h a).1 (alloc h a).0
        ∙ sym (load-fresh h a)
        ∙ ap (load h) s
    | no d ↦ load-free_ne (alloc h a).1 (alloc h a).0 p d ∙ load-alloc_cases h a p (λ e. d (sym e))
  ]

  pub write-write : (h : Heap A) (p : Ptr) (a b : A) → write (write h p a) p b ≡ write h p b
  unfolding write
  write-write h p a b = set-set h p (some a) (some b)

  pub free-write : (h : Heap A) (p : Ptr) (a : A) → free (write h p a) p ≡ free h p
  unfolding write free
  free-write h p a = set-set h p (some a) none

  pub live-alloc : (h : Heap A) (a : A) → live (alloc h a).1 ≡ live h + 1
  unfolding live alloc
  live-alloc [] a = refl
  live-alloc (none ∷ h) a = live-alloc h a
  live-alloc (some x ∷ h) a = omega (arith, live-alloc h a)

  pub live-write :
      (h : Heap A) (p : Ptr) (a b : A) → load h p ≡ some b → live (write h p a) ≡ live h
  unfolding live load write
  live-write [] p a b e = refl
  live-write (none ∷ h) zero a b e = cc
  live-write (some x ∷ h) zero a b e = refl
  live-write (none ∷ h) (suc p) a b e = live-write h p a b e
  live-write (some x ∷ h) (suc p) a b e = omega (arith, live-write h p a b e)

  pub live-free : (h : Heap A) (p : Ptr) {b : A} → load h p ≡ some b → live (free h p) + 1 ≡ live h
  unfolding live load free
  live-free [] p e = cc
  live-free (none ∷ h) zero e = cc
  live-free (some x ∷ h) zero e = refl
  live-free (none ∷ h) (suc p) e = live-free h p e
  live-free (some x ∷ h) (suc p) e = omega (arith, live-free h p e)

  length-free : (h : Heap A) (p : Ptr) → length (free h p) ≡ length h
  unfolding free
  length-free h p = length-set h p none

  -- A block that is given out after a `free` was not allocated before it.
  pub alloc-free-fresh :
      (h : Heap A) (p : Ptr) (a : A) {b : A}
      → load h p ≡ some b
      → load h (alloc (free h p) a).0 ≡ none
  unfolding alloc
  alloc-free-fresh h p a e = elim (ℕ_discrete p (length (free h p))) [
    | yes s ↦ absurd (omega (arith, load-lt h p e, length-free h p))
    | no d ↦ sym (load-free_ne h p (length (free h p)) d) ∙ load-fresh (free h p) a
  ]
