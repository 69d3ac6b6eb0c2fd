-- ===== src/Compile/Installed.antt =====
-- src/jit.c: what `buxn_jit_compile` does to the block map and to the queues.
use buxn_jit.Prelude.{
  ℕ, ◌^◌, ◌≡◌, ◌≢◌, refl, sym, ◌∙◌, ap, false, ◌==◌, Option, none, some, Option-cases, List, [],
  arith, Bool-cases, inl, inr,
}
use buxn_jit.Hamt.{prospector32}
use buxn_jit.Hamt.Laws.{search-put_self, search-put_ne}
use buxn_jit.Lir.{Instr}
use buxn_jit.Ctx.{Ctx}
use buxn_jit.Jit.{Jit, Block, Entry, find_block}
use buxn_jit.Jit.Pending.{queued, Covered, Linked}
use buxn_jit.Jit.Potential.{missing_below-put_present, potential}
use buxn_jit.Compile.Prologue.{new_ctx}
use buxn_jit.Compile.Block.{
  Env, with_code, set_block, install, reverse_onto, compile, compile_block,
}
use buxn_jit.Compile.Rounds.{compile_block-Grows}

pub set_block-potential :
    (jit : Jit) (pc : ℕ) (f : Block → Block) → potential (set_block jit pc f) ≡ potential jit
unfolding set_block potential
set_block-potential jit pc f = elim (Option-cases (find_block jit pc)) [
  | inl absent ↦ rw (absent, set_block) refl
  | inr (block, present) ↦
      rw (present, set_block)
        (omega (arith, missing_below-put_present jit.root pc block (f block) (2 ^ 16) present))
]

set_block-absent :
    (jit : Jit) (pc : ℕ) (f : Block → Block) → find_block jit pc ≡ none → set_block jit pc f ≡ jit
unfolding set_block
set_block-absent jit pc f e = rw (e, set_block) refl

pub set_block_self :
    (jit : Jit) (pc : ℕ) (f : Block → Block) (block : Block)
    → find_block jit pc ≡ some block
    → find_block (set_block jit pc f) pc ≡ some (f block)
unfolding set_block
set_block_self jit pc f block e =
    rw (e, set_block) (search-put_self jit.root (prospector32 pc) pc (f block))

pub set_block-ne :
    (jit : Jit) (pc other : ℕ) (f : Block → Block)
    → pc ≢ other
    → find_block (set_block jit pc f) other ≡ find_block jit other
unfolding set_block
set_block-ne jit pc other f ne = elim (Option-cases (find_block jit pc)) [
  | inl absent ↦ rw (absent, set_block) refl
  | inr (block, present) ↦
      rw (present, set_block)
        (search-put_ne jit.root (prospector32 pc) pc (prospector32 other) other (f block) ne)
]

set_block-queues :
    (jit : Jit) (pc : ℕ) (f : Block → Block)
    → ((set_block jit pc f).compile_queue ≡ jit.compile_queue)
      × ((set_block jit pc f).link_queue ≡ jit.link_queue)
unfolding set_block
set_block-queues jit pc f = elim (Option-cases (find_block jit pc)) [
  | inl absent ↦ rw (absent, set_block) (refl, refl)
  | inr (block, present) ↦ rw (present, set_block) (refl, refl)
]

-- The block that code was installed for is no longer an exception.
pub set_block-Covered :
    (jit : Jit) (pc : ℕ) (f : Block → Block)
    → ((block : Block) → (f block).fn ≢ none)
    → Covered (λ other. pc == other) jit
    → Covered (λ _. false) (set_block jit pc f)
set_block-Covered jit pc f coded c = record {
  at = λ other block found bare. elim (Bool-cases (pc == other)) [
    | inl same ↦
        let it : pc ≡ other = ground arith in
        elim (Option-cases (find_block jit pc)) [
          | inl absent ↦ absurd (gone other block it found absent)
          | inr (old, present) ↦
              let now = set_block_self jit pc f old present in
              absurd (coded old (stored old block other it now found bare))
        ]
    | inr apart ↦
        let before = sym (set_block-ne jit pc other f (ground arith)) ∙ found in
        elim (c.at other block before bare) [
          | inl waits ↦ inl (ap (λ q. queued q other) (set_block-queues jit pc f).0 ∙ waits)
          | inr excepted ↦ absurd (ground arith)
        ]
  ];
}
  where
    stored :
        (old block : Block) (other : ℕ)
        → pc ≡ other
        → find_block (set_block jit pc f) pc ≡ some (f old)
        → find_block (set_block jit pc f) other ≡ some block
        → block.fn ≡ none
        → (f old).fn ≡ none
    stored old block other it now found bare = cc (it, now, found, bare)

    gone :
        (other : ℕ) (block : Block)
        → pc ≡ other
        → find_block (set_block jit pc f) other ≡ some block
        → find_block jit pc ≡ none
        → ⊥
    gone other block it found absent =
        let same = ap (λ j. find_block j other) (set_block-absent jit pc f absent) in
        cc (sym same ∙ found, ap (find_block jit) it, absent)

pub set_block-known :
    (jit : Jit) (pc : ℕ) (f : Block → Block) (other : ℕ) (block : Block)
    → find_block jit other ≡ some block
    → (block' : Block) × (find_block (set_block jit pc f) other ≡ some block')
set_block-known jit pc f other block found = elim (Bool-cases (pc == other)) [
  | inl same ↦
      let it : pc ≡ other = ground arith in
      (
        f block,
        ap (find_block (set_block jit pc f)) (sym it)
            ∙ set_block_self jit pc f block (ap (find_block jit) it ∙ found),
      )
  | inr apart ↦ (block, set_block-ne jit pc other f (ground arith) ∙ found)
]

pub set_block-Linked :
    (jit : Jit) (pc : ℕ) (f : Block → Block) → Linked jit → Linked (set_block jit pc f)
set_block-Linked jit pc f l = record {
  at = λ other waits.
      let (block, found) =
        l.at other (ap (λ q. queued q other) (sym (set_block-queues jit pc f).1) ∙ waits) in
      set_block-known jit pc f other block found;
}

-- What sljit is relied on for: it always yields code.
pub record Yields (env : Env) : Type 0 where
  pub code :
      (compiler : ℕ) (code : List Instr) (head body : ℕ)
      → (env.generate compiler code head body).fn ≢ none

-- What the compilation of a block does to the JIT
pub record Compiled (env : Env) (entry : Entry) (jit jit' : Jit) : Type 0 where
  pub same : potential jit' ≡ potential jit
  pub linked : Linked jit → Linked jit'
  pub covered : Yields env → Covered (λ pc. entry.block == pc) jit → Covered (λ _. false) jit'
  pub known :
      (pc : ℕ) (block : Block)
      → find_block jit pc ≡ some block
      → (block' : Block) × (find_block jit' pc ≡ some block')

install-Compiled :
    (env : Env) (entry : Entry) (labels : ℕ × ℕ) (ctx : Ctx)
    → Compiled env entry ctx.jit (install env entry labels ctx)
unfolding install potential
install-Compiled env entry (head, body) ctx =
    let code = env.generate entry.compiler (reverse_onto ctx.code []) head body in
    let set = set_block ctx.jit entry.block (with_code code) in
    let covered : Yields env
        → Covered (λ pc. entry.block == pc) ctx.jit
        → Covered (λ _. false) set =
      λ yields c.
        set_block-Covered ctx.jit entry.block (with_code code)
          (λ block. yields.code entry.compiler _ head body) c in
    record {
      same = set_block-potential ctx.jit entry.block (with_code code);
      linked = λ l. record { at = (set_block-Linked ctx.jit entry.block (with_code code) l).at };
      covered = λ yields c. record { at = (covered yields c).at };
      known = λ pc block found. set_block-known ctx.jit entry.block (with_code code) pc block found;
    }

-- A compilation that returns ran to its end.
compile-returned :
    (r : Option ((ℕ × ℕ) × Ctx)) (g : ℕ × ℕ → Ctx → Jit) (jit' : Jit)
    → ◌≡◌ {A = Option Jit}
        (elim r [ none ↦ none | some (labels, ctx) ↦ some (g labels ctx) ])
        (some jit')
    → (labels : ℕ × ℕ) × (ctx : Ctx) × (r ≡ some (labels, ctx)) × (g labels ctx ≡ jit')
compile-returned none g jit' e = cc
compile-returned (some (labels, ctx)) g jit' e = (labels, ctx, refl, same (g labels ctx) e)
  where
    same : (a : Jit) → ◌≡◌ {A = Option Jit} (some a) (some jit') → a ≡ jit'
    same a e = cc

pub compile-Compiled :
    (env : Env) (jit jit' : Jit) (entry : Entry)
    → compile env jit entry ≡ some jit'
    → Compiled env entry jit jit'
unfolding compile
compile-Compiled env jit jit' entry e =
    let (labels, ctx, returned, made) =
      compile-returned (compile_block env (new_ctx jit env.image entry)) (install env entry) jit'
        e in
    let (final, grows) = compile_block-Grows env jit entry labels ctx returned in
    let step = install-Compiled env entry labels ctx in
    rw⁻¹ made (record {
      same = step.same ∙ grows.same;
      linked = λ l. step.linked (grows.linked l);
      covered = λ yields c. step.covered yields (grows.covered _ c);
      known = λ pc block found. step.known pc block (grows.kept pc block found);
    })
