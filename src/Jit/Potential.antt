-- ===== src/Jit/Potential.antt =====
-- src/jit.c: the blocks that have not been asked for, which bound the compile queue from now on.
use buxn_jit.Prelude.{
  Bool, ℕ, zero, suc, ◌+◌, ◌≤◌, ◌<◌, ◌^◌, ◌≡◌, ◌≢◌, refl, ◌∙◌, ap, Option, none, some, Option-cases,
  inl, inr, length, arith, Bool-cases, ◌==◌,
}
use buxn_jit.Hamt.{Trie, prospector32, search, put}
use buxn_jit.Hamt.Laws.{search-put_self, search-put_ne}
use buxn_jit.Jit.{
  Jit, Block, LinkType, new_block, find_block, queue_block, add_block, alloc_entry, dequeue,
  request_link,
}
use buxn_jit.Jit.Pending.{
  Covered, Linked, queue_block-Covered, queue_block-Linked, request_link-Covered,
  request_link-Linked,
}

abbrev pub lacks : Option Block → ℕ
lacks none = 1
lacks (some block) = 0

-- How many of the addresses below `n` have no block
pub missing_below : Trie Block → ℕ → ℕ
missing_below root zero = 0
missing_below root (suc n) = lacks (search root (prospector32 n) n) + missing_below root n

pub missing_below-le : (root : Trie Block) (n : ℕ) → missing_below root n ≤ n
unfolding missing_below
missing_below-le root zero = omega arith
missing_below-le root (suc n) = ground (arith, missing_below-le root n)

missing_below-above :
    (root : Trie Block) (pc : ℕ) (block : Block) (n : ℕ)
    → n ≤ pc
    → missing_below (put root (prospector32 pc) pc block) n ≡ missing_below root n
unfolding missing_below
missing_below-above root pc block zero h = refl
missing_below-above root pc block (suc n) h =
    let same = search-put_ne root (prospector32 pc) pc (prospector32 n) n block (omega arith) in
    rw same (omega (arith, missing_below-above root pc block n (omega arith)))

missing_below-put :
    (root : Trie Block) (pc : ℕ) (block : Block) (n : ℕ)
    → pc < n
    → search root (prospector32 pc) pc ≡ none
    → missing_below (put root (prospector32 pc) pc block) n + 1 ≡ missing_below root n
unfolding missing_below
missing_below-put root pc block zero h e = absurd (omega arith)
missing_below-put root pc block (suc n) h e = elim (Bool-cases (pc == n)) [
  | inl same ↦
      let it : pc ≡ n = ground arith in
      let gone : lacks (search root (prospector32 n) n) ≡ 1 = rw⁻¹ it (ap lacks e) in
      let here : lacks (search (put root (prospector32 pc) pc block) (prospector32 n) n) ≡ 0 =
        rw⁻¹ it (ap lacks (search-put_self root (prospector32 pc) pc block)) in
      omega (arith, gone, here, missing_below-above root pc block n (omega arith))
  | inr apart ↦
      let ne : pc ≢ n = ground arith in
      let same = search-put_ne root (prospector32 pc) pc (prospector32 n) n block ne in
      rw same (omega (arith, missing_below-put root pc block n (omega arith) e))
]

-- A write to a block that is there brings no new block.
pub missing_below-put_present :
    (root : Trie Block) (pc : ℕ) (old block : Block) (n : ℕ)
    → search root (prospector32 pc) pc ≡ some old
    → missing_below (put root (prospector32 pc) pc block) n ≡ missing_below root n
unfolding missing_below
missing_below-put_present root pc old block zero e = refl
missing_below-put_present root pc old block (suc n) e = elim (Bool-cases (pc == n)) [
  | inl same ↦
      let it : pc ≡ n = ground arith in
      let before : lacks (search root (prospector32 n) n) ≡ 0 = rw⁻¹ it (ap lacks e) in
      let after : lacks (search (put root (prospector32 pc) pc block) (prospector32 n) n) ≡ 0 =
        rw⁻¹ it (ap lacks (search-put_self root (prospector32 pc) pc block)) in
      omega (arith, before, after, missing_below-put_present root pc old block n e)
  | inr apart ↦
      let other = search-put_ne root (prospector32 pc) pc (prospector32 n) n block (ground arith) in
      rw other (omega (arith, missing_below-put_present root pc old block n e))
]

-- The blocks that are waiting to be compiled, and those that may still be asked for
unfoldable pub potential : Jit → ℕ
potential jit = missing_below jit.root (2 ^ 16) + length jit.compile_queue

-- What asking for blocks does: nothing is lost, no more is ever to be compiled than at first, and
-- all that is asked for waits.
pub record Grows (jit jit' : Jit) : Type 0 where
  pub same : potential jit' ≡ potential jit
  pub kept :
      (pc : ℕ) (block : Block) → find_block jit pc ≡ some block → find_block jit' pc ≡ some block
  pub covered : (P : ℕ → Bool) → Covered P jit → Covered P jit'
  pub linked : Linked jit → Linked jit'

pub Grows-refl : (jit : Jit) → Grows jit jit
Grows-refl jit = record { same = refl; kept = λ pc block e. e; covered = λ P c. c; linked = λ l. l }

pub Grows-trans : (a b c : Jit) → Grows a b → Grows b c → Grows a c
Grows-trans a b c p q = record {
  same = q.same ∙ p.same;
  kept = λ pc block e. q.kept pc block (p.kept pc block e);
  covered = λ P h. q.covered P (p.covered P h);
  linked = λ l. q.linked (p.linked l);
}

add_block-potential :
    (jit : Jit) (pc : ℕ)
    → pc < 2 ^ 16
    → find_block jit pc ≡ none
    → potential (add_block jit pc) ≡ potential jit
unfolding potential add_block alloc_entry
add_block-potential jit pc h e =
    omega (arith, missing_below-put jit.root pc (new_block pc) (2 ^ 16) h e)

add_block-kept :
    (jit : Jit) (pc other : ℕ) (block : Block)
    → find_block jit pc ≡ none
    → find_block jit other ≡ some block
    → find_block (add_block jit pc) other ≡ some block
unfolding add_block
add_block-kept jit pc other block absent e = elim (Bool-cases (pc == other)) [
  | inl same ↦ let it : pc ≡ other = ground arith in absurd (cc (absent, e, ap (find_block jit) it))
  | inr apart ↦
      search-put_ne jit.root (prospector32 pc) pc (prospector32 other) other (new_block pc)
        (ground arith)
      ∙ e
]

queue_block-potential :
    (jit : Jit) (pc : ℕ) → pc < 2 ^ 16 → potential (queue_block jit pc) ≡ potential jit
unfolding queue_block
queue_block-potential jit pc h = elim (Option-cases (find_block jit pc)) [
  | inl absent ↦ rw (absent, queue_block) (add_block-potential jit pc h absent)
  | inr (block, present) ↦ rw (present, queue_block) refl
]

queue_block-kept :
    (jit : Jit) (pc other : ℕ) (block : Block)
    → find_block jit other ≡ some block
    → find_block (queue_block jit pc) other ≡ some block
unfolding queue_block
queue_block-kept jit pc other block e = elim (Option-cases (find_block jit pc)) [
  | inl absent ↦ rw (absent, queue_block) (add_block-kept jit pc other block absent e)
  | inr (block, present) ↦ rw (present, queue_block) e
]

pub queue_block-Grows : (jit : Jit) (pc : ℕ) → pc < 2 ^ 16 → Grows jit (queue_block jit pc)
queue_block-Grows jit pc h = record {
  same = queue_block-potential jit pc h;
  kept = queue_block-kept jit pc;
  covered = λ P. queue_block-Covered P jit pc;
  linked = queue_block-Linked jit pc (queue_block-kept jit pc);
}

request_link-kept :
    (jit : Jit) (type : LinkType) (target compiler jump pc : ℕ) (block : Block)
    → find_block jit pc ≡ some block
    → find_block (request_link jit type target compiler jump) pc ≡ some block
unfolding request_link alloc_entry
request_link-kept jit type target compiler jump =
    queue_block-kept (record jit { entry_pool = (dequeue jit.entry_pool).1 }) target

-- The link queue and the pool of entries do not count.
request_link-potential :
    (jit : Jit) (type : LinkType) (target compiler jump : ℕ)
    → target < 2 ^ 16
    → potential (request_link jit type target compiler jump) ≡ potential jit
unfolding request_link alloc_entry potential
request_link-potential jit type target compiler jump h =
    queue_block-potential (record jit { entry_pool = (dequeue jit.entry_pool).1 }) target h

pub request_link-Grows :
    (jit : Jit) (type : LinkType) (target compiler jump : ℕ)
    → target < 2 ^ 16
    → Grows jit (request_link jit type target compiler jump)
request_link-Grows jit type target compiler jump h = record {
  same = request_link-potential jit type target compiler jump h;
  kept = request_link-kept jit type target compiler jump;
  covered = λ P. request_link-Covered P jit type target compiler jump;
  linked =
      request_link-Linked jit type target compiler jump
        (request_link-kept jit type target compiler jump);
}
