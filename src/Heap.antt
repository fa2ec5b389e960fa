-- ===== src/Heap.antt =====
-- The C heap, one kind of block at a time: what `malloc` and `free` promise. A pointer is the
-- number of its block, `none` marks a block that was freed, and no pointer is given out twice.
pub mod Laws
use lua_kcp_skynet.Prelude.{ℕ, ◌+◌, List, [], ◌∷◌, ◌++◌, Option, none, some, length, get_elem?, set}

abbrev pub Ptr : Type 0
Ptr = ℕ

abbrev pub Heap : Type 0 → Type 0
Heap A = List (Option A)

module _ {A : Type 0} where
  -- `*p`; `none` if the block was freed or never allocated.
  unfoldable pub load : Heap A → Ptr → Option A
  load h p = elim (get_elem? h p) [ none ↦ none | some b ↦ b ]

  unfoldable pub alloc : Heap A → A → Ptr × Heap A
  alloc h a = (length h, h ++ some a ∷ [])

  unfoldable pub write : Heap A → Ptr → A → Heap A
  write h p a = set h p (some a)

  unfoldable pub free : Heap A → Ptr → Heap A
  free h p = set h p none

  -- How many blocks are allocated and not freed.
  unfoldable pub live : Heap A → ℕ
  live [] = 0
  live (none ∷ h) = live h
  live (some _ ∷ h) = live h + 1
