-- ===== src/Jit/Pending.antt =====
-- src/jit.c: which blocks wait in the queues of a JIT.
use buxn_jit.Prelude.{
  ℕ, ◌≡◌, ◌∙◌, sym, ap, refl, Bool, true, false, ◌==◌, if◌then◌else◌, Bool-cases, Option-cases, ◌⊎◌,
  inl, inr, none, some, List, [], ◌∷◌, arith,
}
use buxn_jit.Hamt.{prospector32}
use buxn_jit.Hamt.Laws.{search-put_ne}
use buxn_jit.Jit.{
  Jit, Block, Entry, LinkType, new_block, find_block, queue_block, add_block, alloc_entry,
  request_link, dequeue,
}
use buxn_jit.Jit.Laws.{or_new, find_block-queue_self}

-- Is there an entry for this block?
unfoldable pub queued : List Entry → ℕ → Bool
queued [] pc = false
queued (entry ∷ entries) pc = if entry.block == pc then true else queued entries pc

-- A block without code waits to be compiled, unless `P` excepts it.
pub record Covered (P : ℕ → Bool) (jit : Jit) : Type 0 where
  pub at :
      (pc : ℕ) (block : Block)
      → find_block jit pc ≡ some block
      → block.fn ≡ none
      → (queued jit.compile_queue pc ≡ true) ⊎ (P pc ≡ true)

-- A jump that waits to be linked is to a block of the map.
pub record Linked (jit : Jit) : Type 0 where
  pub at :
      (pc : ℕ)
      → queued jit.link_queue pc ≡ true
      → (block : Block) × (find_block jit pc ≡ some block)

pub queued-cons :
    (entry : Entry) (entries : List Entry) (pc : ℕ)
    → queued entries pc ≡ true
    → queued (entry ∷ entries) pc ≡ true
unfolding queued
queued-cons entry entries pc h = ground arith

pub queued-head :
    (entry : Entry) (entries : List Entry) (pc : ℕ)
    → entry.block ≡ pc
    → queued (entry ∷ entries) pc ≡ true
unfolding queued
queued-head entry entries pc h = ground arith

pub add_block-Covered :
    (P : ℕ → Bool) (jit : Jit) (pc : ℕ) → Covered P jit → Covered P (add_block jit pc)
unfolding add_block alloc_entry
add_block-Covered P jit pc c = record {
  at = λ other block found bare. elim (Bool-cases (pc == other)) [
    | inl same ↦ inl (queued-head _ jit.compile_queue other (ground arith))
    | inr apart ↦
        let before = sym (
          search-put_ne jit.root (prospector32 pc) pc (prospector32 other) other (new_block pc)
            (ground arith)) in
        elim (c.at other block (before ∙ found) bare) [
          | inl waits ↦ inl (queued-cons _ jit.compile_queue other waits)
          | inr excepted ↦ inr excepted
        ]
  ];
}

pub queue_block-Covered :
    (P : ℕ → Bool) (jit : Jit) (pc : ℕ) → Covered P jit → Covered P (queue_block jit pc)
unfolding queue_block
queue_block-Covered P jit pc c = elim (Option-cases (find_block jit pc)) [
  | inl absent ↦ rw (absent, queue_block) (add_block-Covered P jit pc c)
  | inr (block, present) ↦ rw (present, queue_block) c
]

pub request_link-Covered :
    (P : ℕ → Bool) (jit : Jit) (type : LinkType) (target compiler jump : ℕ)
    → Covered P jit
    → Covered P (request_link jit type target compiler jump)
unfolding request_link alloc_entry
request_link-Covered P jit type target compiler jump c =
    let jit1 : Jit = record jit { entry_pool = (dequeue jit.entry_pool).1 } in
    let d = queue_block-Covered P jit1 target (record { at = c.at }) in record { at = d.at }

same_links : (jit : Jit) (pc : ℕ) → (queue_block jit pc).link_queue ≡ jit.link_queue
unfolding queue_block add_block alloc_entry
same_links jit pc = elim (Option-cases (find_block jit pc)) [
  | inl absent ↦ rw (absent, queue_block) refl
  | inr (block, present) ↦ rw (present, queue_block) refl
]

-- A request asks for the block that it links to.
pub request_link-Linked :
    (jit : Jit) (type : LinkType) (target compiler jump : ℕ)
    → ((pc : ℕ) (block : Block)
        → find_block jit pc ≡ some block
        → find_block (request_link jit type target compiler jump) pc ≡ some block)
    → Linked jit
    → Linked (request_link jit type target compiler jump)
unfolding request_link alloc_entry queued
request_link-Linked jit type target compiler jump kept l = record {
  at = λ pc waits. elim (Bool-cases (target == pc)) [
    | inl same ↦
        let jit1 : Jit = record jit { entry_pool = (dequeue jit.entry_pool).1 } in
        let it : target ≡ pc = ground arith in
        (
          or_new (find_block jit1 target) target,
          ap (find_block (queue_block jit1 target)) (sym it) ∙ find_block-queue_self jit1 target,
        )
    | inr apart ↦
        let jit1 : Jit = record jit { entry_pool = (dequeue jit.entry_pool).1 } in
        let links = same_links jit1 target in
        let (block, found) = l.at pc (ground (arith, links)) in (block, kept pc block found)
  ];
}

-- The same of a block that is only asked for
pub queue_block-Linked :
    (jit : Jit) (pc : ℕ)
    → ((other : ℕ) (block : Block)
        → find_block jit other ≡ some block
        → find_block (queue_block jit pc) other ≡ some block)
    → Linked jit
    → Linked (queue_block jit pc)
queue_block-Linked jit pc kept l = record {
  at = λ other waits.
      let links = same_links jit pc in
      let (block, found) = l.at other (ap (λ q. queued q other) (sym links) ∙ waits) in
      (block, kept other block found);
}
