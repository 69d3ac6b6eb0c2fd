-- ===== src/Jit/Laws.antt =====
-- src/jit.c: `buxn_jit_queue_block` and the block map.
use buxn_jit.Prelude.{ℕ, ◌≡◌, ◌≢◌, Option, none, some, Option-cases, inl, inr}
use buxn_jit.Hamt.{prospector32}
use buxn_jit.Hamt.Laws.{search-put_self, search-put_ne}
use buxn_jit.Jit.{Jit, Block, new_block, find_block, queue_block, add_block}

find-add_self : (jit : Jit) (pc : ℕ) → find_block (add_block jit pc) pc ≡ some (new_block pc)
unfolding add_block
find-add_self jit pc = search-put_self jit.root (prospector32 pc) pc (new_block pc)

find-add_ne :
    (jit : Jit) (pc other : ℕ)
    → pc ≢ other
    → find_block (add_block jit pc) other ≡ find_block jit other
unfolding add_block
find-add_ne jit pc other ne =
    search-put_ne jit.root (prospector32 pc) pc (prospector32 other) other (new_block pc) ne

-- The block at an address, or the one that a request for it makes
abbrev pub or_new : Option Block → ℕ → Block
or_new none pc = new_block pc
or_new (some block) pc = block

-- After a request for an address its block is in the map: the block that was there, else one
-- without code.
pub find_block-queue_self :
    (jit : Jit) (pc : ℕ) → find_block (queue_block jit pc) pc ≡ some (or_new (find_block jit pc) pc)
unfolding queue_block
find_block-queue_self jit pc = elim (Option-cases (find_block jit pc)) [
  | inl absent ↦ rw (absent, queue_block) (find-add_self jit pc)
  | inr (block, present) ↦ rw (present, queue_block) present
]

-- A request for an address leaves what the map holds for every other address.
pub find_block-queue_ne :
    (jit : Jit) (pc other : ℕ)
    → pc ≢ other
    → find_block (queue_block jit pc) other ≡ find_block jit other
unfolding queue_block
find_block-queue_ne jit pc other ne = elim (Option-cases (find_block jit pc)) [
  | inl absent ↦ rw (absent, queue_block) (find-add_ne jit pc other ne)
  | inr (block, present) ↦ rw (present, queue_block)
]

pub queue-present :
    (jit : Jit) (pc : ℕ) (block : Block) → find_block jit pc ≡ some block → queue_block jit pc ≡ jit
unfolding queue_block
queue-present jit pc block found = rw (found, queue_block)

-- A second request for the same address changes nothing.
pub queue_block-idempotent :
    (jit : Jit) (pc : ℕ) → queue_block (queue_block jit pc) pc ≡ queue_block jit pc
queue_block-idempotent jit pc =
    queue-present (queue_block jit pc) pc _ (find_block-queue_self jit pc)
