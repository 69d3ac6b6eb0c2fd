-- ===== src/Compile/Patched.antt =====
-- src/jit.c, `buxn_jit`: the jumps that wait when all blocks have been compiled, and what they are made
-- to go to.
use buxn_jit.Prelude.{
  ℕ, ◌<◌, ◌^◌, ◌≡◌, ◌≢◌, refl, sym, ◌∙◌, ap, true, false, ltb, Bool-cases, Option, none, some, List,
  [], ◌∷◌, arith, inl, inr,
}
use mathlib.Core.Path.{subst}
use buxn_jit.Hamt.{search, prospector32}
use buxn_jit.Jit.{
  Jit, Block, Entry, LinkType, link_to_head, link_to_body, find_block, queue_block, enqueue,
}
use buxn_jit.Jit.Laws.{find_block-queue_self, or_new}
use buxn_jit.Jit.Pending.{queued, queued-head, queued-cons}
use buxn_jit.Jit.Potential.{queue_block-Grows}
use buxn_jit.Compile.Block.{Env}
use buxn_jit.Compile.Installed.{Yields}
use buxn_jit.Compile.Queues.{
  done, Patch, patch, target_addr, link_from, compile_all, finish, Worked, has_code, translate,
}
use buxn_jit.Compile.Settled.{AllCompiled, compile_all-AllCompiled}
use buxn_jit.Compile.Linking.{finish-Finished}
use buxn_jit.Compile.Translate.{Settled, Settled-Covered, Settled-Linked, compiled, translate-new}

-- The address that a link of this type to a block is to
pub record Address (type : LinkType) (block : Block) (address : ℕ) : Type 0 where
  pub head : type ≡ link_to_head → address ≡ block.head_addr
  pub body : type ≡ link_to_body → address ≡ block.body_addr

-- The call that makes the jump of an entry go to a block
pub record Sets (entry : Entry) (block : Block) (p : Patch) : Type 0 where
  pub compiler : p.compiler ≡ entry.compiler
  pub jump : p.jump ≡ entry.jump
  pub target : Address entry.link_type block p.target
  pub known : 0 < p.target
  pub offset : p.executable_offset ≡ block.executable_offset

-- A block of the map, with code
pub record Coded (blocks : ℕ → Option Block) (pc : ℕ) (block : Block) : Type 0 where
  pub found : blocks pc ≡ some block
  pub coded : block.fn ≢ none

-- The calls for a queue, one for each of its entries in their order, less those to the address 0
pub data Patched (blocks : ℕ → Option Block) : List Entry → List Patch → Type 0 where
  none_left : Patched blocks [] []
  skipped :
      (entry : Entry) (block : Block) (queue : List Entry) (patches : List Patch)
      → Coded blocks entry.block block
      → Address entry.link_type block 0
      → Patched blocks queue patches
      → Patched blocks (entry ∷ queue) patches
  set :
      (entry : Entry) (block : Block) (p : Patch) (queue : List Entry) (patches : List Patch)
      → Coded blocks entry.block block
      → Sets entry block p
      → Patched blocks queue patches
      → Patched blocks (entry ∷ queue) (p ∷ patches)

target_addr-Address :
    (type : LinkType) (block : Block) (a : ℕ) → a ≡ target_addr type block → Address type block a
target_addr-Address link_to_head block a e = record { head = λ _. e; body = λ other. cc }
target_addr-Address link_to_body block a e = record { head = λ other. cc; body = λ _. e }

patch-Sets :
    (entry : Entry) (block : Block)
    → 0 < target_addr entry.link_type block
    → Sets entry block (patch entry block)
patch-Sets entry block h = record {
  compiler = refl;
  jump = refl;
  target = target_addr-Address entry.link_type block _ refl;
  known = h;
  offset = refl;
}

link_from-Patched :
    (jit : Jit) (queue : List Entry)
    → ((pc : ℕ) → queued queue pc ≡ true → (block : Block) × Coded (find_block jit) pc block)
    → Patched (find_block jit) queue (link_from jit queue).0
unfolding link_from
link_from-Patched jit [] h = none_left
link_from-Patched jit (entry ∷ queue) h =
    let (block, c) = h entry.block (queued-head entry queue entry.block refl) in
    let rest =
      link_from-Patched (record jit { entry_pool = enqueue jit.entry_pool entry }) queue
        λ pc waits. h pc (queued-cons entry queue pc waits) in
    elim (Bool-cases (ltb 0 (target_addr entry.link_type block))) [
      | inl known ↦
          rw (c.found, known)
            (set entry block (patch entry block) queue _ c (patch-Sets entry block (ground arith))
              rest)
      | inr zero ↦
          rw (c.found, zero)
            (skipped entry block queue _ c
              (target_addr-Address entry.link_type block 0 (ground arith)) rest)
    ]

-- Where all blocks have code, each jump that waits is to a block with code.
waiting-Coded :
    (env : Env) (first jit : Jit)
    → AllCompiled env first jit
    → (pc : ℕ) → queued jit.link_queue pc ≡ true
    → (block : Block) × Coded (find_block jit) pc block
unfolding queued
waiting-Coded env first jit all pc waits =
    let (block, found) = all.linked.at pc waits in
    (
      block,
      record {
        found = found;
        coded = λ bare. elim (all.covered.at pc block found bare) [
          | inl later ↦ nothing (ap (λ q. queued q pc) (sym all.empty) ∙ later)
          | inr excepted ↦ nothing excepted
        ];
      },
    )
  where
    nothing : false ≡ true → ⊥
    nothing e = cc

finish-Patched :
    (env : Env) (first jit : Jit)
    → AllCompiled env first jit
    → Patched (find_block (finish jit).jit) jit.link_queue (finish jit).patches
unfolding finish
finish-Patched env first jit all =
    subst (λ blocks. Patched blocks jit.link_queue (finish jit).patches)
      (ap (λ root pc. search root (prospector32 pc) pc) (sym (finish-Finished jit).root))
      (link_from-Patched jit jit.link_queue (waiting-Coded env first jit all))

-- If sljit always yields code and the JIT is settled, a request for an address of sixteen bits that
-- has no block yet, whose blocks are all compiled, is answered. Each jump that waits then is to a
-- block of the map that has code, and the calls that sljit gets are one for each of these jumps, in
-- the order of the queue, less those whose block has the address 0: it makes the jump go to the
-- head or to the body of that block, as was asked.
pub translate-Patched :
    (env : Env) (fuel : ℕ) (jit jit2 : Jit) (pc : ℕ)
    → pc < 2 ^ 16
    → Yields env
    → Settled jit
    → find_block jit pc ≡ none
    → compile_all env fuel (queue_block jit pc) ≡ done jit2
    → (w : Worked) × (translate env fuel jit pc ≡ done w)
      × Patched (find_block w.jit) jit2.link_queue w.patches
translate-Patched env fuel jit jit2 pc short yields s new ran =
    let jit1 = queue_block jit pc in
    let grows = queue_block-Grows jit pc short in
    let all =
      compile_all-AllCompiled env yields fuel jit1 jit2 (grows.covered _ (Settled-Covered jit s))
        (grows.linked (Settled-Linked jit s)) ran in
    let bare : has_code (find_block jit1 pc) ≡ none =
      ap has_code (find_block-queue_self jit pc) ∙ ap (λ o. has_code (some (or_new o pc))) new in
    (
      finish jit2,
      translate-new env fuel jit pc bare ∙ ap (compiled env fuel) ran,
      finish-Patched env jit1 jit2 all,
    )
