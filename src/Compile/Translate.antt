-- ===== src/Compile/Translate.antt =====
-- src/jit.c, `buxn_jit`: a request for an address is answered, and leaves the JIT settled.
use buxn_jit.Prelude.{
  ℕ, ◌+◌, ◌<◌, ◌^◌, ◌≡◌, ◌≢◌, refl, sym, ◌∙◌, ap, true, false, Option, none, some, Option-cases, [],
  length, arith, inl, inr,
}
use buxn_jit.Hamt.{search, prospector32}
use buxn_jit.Jit.{Jit, Block, find_block, queue_block, init}
use buxn_jit.Jit.Laws.{find_block-queue_self, queue-present, or_new}
use buxn_jit.Jit.Pending.{queued, Covered, Linked}
use buxn_jit.Jit.Potential.{missing_below-le, potential, queue_block-Grows}
use buxn_jit.Compile.Block.{Env}
use buxn_jit.Compile.Installed.{Yields}
use buxn_jit.Compile.Queues.{
  Outcome, done, failed, out_of_fuel, compile_all, finish, Worked, has_code, translate,
}
use buxn_jit.Compile.Settled.{compile_all-total, compile_all-AllCompiled}
use buxn_jit.Compile.Linking.{finish-Finished}

-- Between two requests nothing waits, and all blocks have code.
pub record Settled (jit : Jit) : Type 0 where
  pub compile_queue : jit.compile_queue ≡ []
  pub link_queue : jit.link_queue ≡ []
  pub cleanup_queue : jit.cleanup_queue ≡ []
  pub coded : (pc : ℕ) (block : Block) → find_block jit pc ≡ some block → block.fn ≢ none

pub init-Settled : Settled init
unfolding search
init-Settled = record {
  compile_queue = refl;
  link_queue = refl;
  cleanup_queue = refl;
  coded = λ pc block e. absurd (nothing block e);
}
  where
    nothing : (block : Block) → ◌≡◌ {A = Option Block} none (some block) → ⊥
    nothing block e = cc

pub Settled-Covered : (jit : Jit) → Settled jit → Covered (λ _. false) jit
Settled-Covered jit s = record { at = λ pc block found bare. absurd (s.coded pc block found bare) }

pub Settled-Linked : (jit : Jit) → Settled jit → Linked jit
unfolding queued
Settled-Linked jit s = record {
  at = λ pc waits. absurd (nothing pc (ap (λ q. queued q pc) (sym s.link_queue) ∙ waits));
}
  where
    nothing : (pc : ℕ) → false ≡ true → ⊥
    nothing pc e = cc

-- The block at the address has code.
pub record Answered (jit : Jit) (pc : ℕ) : Type 0 where
  pub block : Block
  pub fn : ℕ
  pub found : find_block jit pc ≡ some block
  pub code : block.fn ≡ some fn

some_code : (o : Option ℕ) → o ≢ none → (fn : ℕ) × (o ≡ some fn)
some_code none h = absurd (h refl)
some_code (some fn) h = (fn, refl)

has_code-Answered :
    (jit : Jit) (pc fn : ℕ) → has_code (find_block jit pc) ≡ some fn → Answered jit pc
has_code-Answered jit pc fn e = elim (Option-cases (find_block jit pc)) [
  | inl absent ↦ absurd (nothing (ap has_code (sym absent) ∙ e))
  | inr (block, present) ↦ record {
    block = block;
    fn = fn;
    found = present;
    code = ap has_code (sym present) ∙ e;
  }
]
  where
    nothing : ◌≡◌ {A = Option ℕ} none (some fn) → ⊥
    nothing e = cc

module _ (env : Env) (fuel : ℕ) where
  abbrev pub compiled : Outcome Jit → Outcome Worked
  compiled o = elim o [ failed ↦ failed | out_of_fuel ↦ out_of_fuel | done jit ↦ done (finish jit) ]

  abbrev answer_of : Jit → ℕ → Option ℕ → Outcome Worked
  answer_of jit pc o = elim o [
    | some fn ↦ done (record { jit = queue_block jit pc; patches = []; freed = [] })
    | none ↦ compiled (compile_all env fuel (queue_block jit pc))
  ]

  answer :
      (jit : Jit) (pc : ℕ) (o : Option ℕ)
      → has_code (find_block (queue_block jit pc) pc) ≡ o
      → translate env fuel jit pc ≡ answer_of jit pc o
  unfolding translate
  answer jit pc o e = ap (answer_of jit pc) e

  pub translate-new :
      (jit : Jit) (pc : ℕ)
      → has_code (find_block (queue_block jit pc) pc) ≡ none
      → translate env fuel jit pc ≡ compiled (compile_all env fuel (queue_block jit pc))
  translate-new jit pc e = answer jit pc none e

  translate-known :
      (jit : Jit) (pc fn : ℕ)
      → has_code (find_block (queue_block jit pc) pc) ≡ some fn
      → translate env fuel jit pc
        ≡ done (record { jit = queue_block jit pc; patches = []; freed = [] })
  translate-known jit pc fn e = answer jit pc (some fn) e

  compiled-total : (o : Outcome Jit) → o ≢ out_of_fuel → compiled o ≢ out_of_fuel
  compiled-total (done jit) h = λ e. cc
  compiled-total failed h = λ e. cc
  compiled-total out_of_fuel h = λ e. h refl

  -- A request for an address of sixteen bits is answered or stopped by an assertion, if the fuel
  -- is more than the number of addresses and of the blocks that wait: the loop over the compile
  -- queue, which grows as it runs, ends within so many rounds.
  pub translate-total :
      (jit : Jit) (pc : ℕ)
      → pc < 2 ^ 16
      → 2 ^ 16 + length jit.compile_queue < fuel
      → translate env fuel jit pc ≢ out_of_fuel
  unfolding potential
  translate-total jit pc short h bad =
      let jit1 = queue_block jit pc in
      let same = (queue_block-Grows jit pc short).same in
      elim (Option-cases (has_code (find_block jit1 pc))) [
        | inl bare ↦
            compiled-total (compile_all env fuel jit1)
              (compile_all-total env fuel jit1
                (omega (arith, same, missing_below-le jit.root (2 ^ 16))))
              (sym (translate-new jit pc bare) ∙ bad)
        | inr (fn, coded) ↦ refused _ (sym (translate-known jit pc fn coded) ∙ bad)
      ]
    where
      refused : (w : Worked) → ◌≡◌ {A = Outcome Worked} (done w) out_of_fuel → ⊥
      refused w bad = cc

  finish-Settled :
      (jit : Jit) → jit.compile_queue ≡ [] → Covered (λ _. false) jit → Settled (finish jit).jit
  unfolding queued
  finish-Settled jit empty c =
      let f = finish-Finished jit in
      record {
        compile_queue = f.compile_queue ∙ empty;
        link_queue = f.link_queue;
        cleanup_queue = f.cleanup_queue;
        coded = λ pc block found bare.
            elim (c.at pc block (ap (λ t. search t (prospector32 pc) pc) (sym f.root) ∙ found)
              bare) [
                | inl waits ↦ nothing (ap (λ q. queued q pc) (sym empty) ∙ waits)
                | inr excepted ↦ nothing excepted
              ];
      }
    where
      nothing : false ≡ true → ⊥
      nothing e = cc

  Settled-Answered :
      (jit : Jit) (pc : ℕ) (block : Block)
      → Settled jit
      → find_block jit pc ≡ some block
      → Answered jit pc
  Settled-Answered jit pc block s found =
      let (fn, code) = some_code block.fn (s.coded pc block found) in
      record { block = block; fn = fn; found = found; code = code }

  -- The first branch: the block has code already, so that it was there before.
  known-Settled :
      (jit : Jit) (pc fn : ℕ)
      → Settled jit
      → has_code (find_block (queue_block jit pc) pc) ≡ some fn
      → Settled (queue_block jit pc)
  known-Settled jit pc fn s coded = elim (Option-cases (find_block jit pc)) [
    | inl absent ↦ absurd (
        nothing (
          sym (ap (λ o. has_code (some (or_new o pc))) absent)
          ∙ (sym (ap has_code (find_block-queue_self jit pc)) ∙ coded)))
    | inr (block, present) ↦ rw (queue-present jit pc block present) s
  ]
    where
      nothing : ◌≡◌ {A = Option ℕ} none (some fn) → ⊥
      nothing e = cc

  -- The second: the loops have run.
  finished-Settled :
      (jit : Jit) (pc : ℕ) (block : Block) (o : Outcome Jit) (w : Worked)
      → Yields env
      → Covered (λ _. false) jit
      → Linked jit
      → find_block jit pc ≡ some block
      → compile_all env fuel jit ≡ o
      → compiled o ≡ done w
      → Settled w.jit × Answered w.jit pc
  finished-Settled jit pc block failed w yields c l found ran e = cc
  finished-Settled jit pc block out_of_fuel w yields c l found ran e = cc
  finished-Settled jit pc block (done jit2) w yields c l found ran e =
      let all = compile_all-AllCompiled env yields fuel jit jit2 c l ran in
      let settled = finish-Settled jit2 all.empty all.covered in
      let (block', found') = all.known pc block found in
      let now = ap (λ t. search t (prospector32 pc) pc) (finish-Finished jit2).root ∙ found' in
      rw⁻¹ (same jit2 e) (settled, Settled-Answered (finish jit2).jit pc block' settled now)
    where
      same : (jit2 : Jit) → ◌≡◌ {A = Outcome Worked} (done (finish jit2)) (done w) → finish jit2 ≡ w
      same jit2 e = cc

  -- If sljit always yields code, a request for an address of sixteen bits that a settled JIT
  -- answers leaves it settled, nothing waiting in the three queues and code for each block of the
  -- map, and the block at the address is one of them.
  pub translate-Settled :
      (jit : Jit) (pc : ℕ) (w : Worked)
      → pc < 2 ^ 16
      → Yields env
      → Settled jit
      → translate env fuel jit pc ≡ done w
      → Settled w.jit × Answered w.jit pc
  translate-Settled jit pc w short yields s e =
      let jit1 = queue_block jit pc in
      let grows = queue_block-Grows jit pc short in
      elim (Option-cases (has_code (find_block jit1 pc))) [
        | inl bare ↦
            finished-Settled jit1 pc _ (compile_all env fuel jit1) w yields
              (grows.covered _ (Settled-Covered jit s)) (grows.linked (Settled-Linked jit s))
              (find_block-queue_self jit pc) refl (sym (translate-new jit pc bare) ∙ e)
        | inr (fn, coded) ↦
            rw⁻¹
              (same (record { jit = jit1; patches = []; freed = [] })
                (sym (translate-known jit pc fn coded) ∙ e))
              (known-Settled jit pc fn s coded, has_code-Answered jit1 pc fn coded)
      ]
    where
      same : (v : Worked) → ◌≡◌ {A = Outcome Worked} (done v) (done w) → v ≡ w
      same v e = cc
