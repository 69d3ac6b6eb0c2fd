-- ===== src/Compile/Settled.antt =====
-- src/jit.c, `buxn_jit`: the loops end, and leave a JIT in which all blocks have code and nothing
-- waits.
use buxn_jit.Prelude.{
  ℕ, zero, suc, ◌+◌, ◌<◌, ◌≡◌, ◌≢◌, refl, sym, ◌∙◌, ap, true, false, ◌==◌, ◌⊎◌, Option, none, some,
  Option-cases, List, [], ◌∷◌, arith, Bool-cases, inl, inr,
}
use buxn_jit.Jit.{Jit, Block, Entry, find_block, enqueue}
use buxn_jit.Jit.Pending.{queued, Covered, Linked}
use buxn_jit.Jit.Potential.{potential}
use buxn_jit.Compile.Block.{Env, compile}
use buxn_jit.Compile.Installed.{Yields, compile-Compiled}
use buxn_jit.Compile.Queues.{Outcome, done, failed, out_of_fuel, compile_all}

List-cases :
    (entries : List Entry)
    → (entries ≡ []) ⊎ ((entry : Entry) × (queue : List Entry) × (entries ≡ entry ∷ queue))
List-cases [] = inl refl
List-cases (entry ∷ queue) = inr (entry, queue, refl)

abbrev taken : Jit → List Entry → Jit
taken jit queue = record jit { compile_queue = queue }

abbrev returned : Jit → Entry → Jit
returned jit entry = record jit { entry_pool = enqueue jit.entry_pool entry }

taken-potential :
    (jit : Jit) (entry : Entry) (queue : List Entry)
    → jit.compile_queue ≡ entry ∷ queue
    → potential (taken jit queue) + 1 ≡ potential jit
unfolding potential
taken-potential jit entry queue e = rw e (omega arith)

queued-tail :
    (entry : Entry) (queue : List Entry) (pc : ℕ)
    → (entry.block == pc) ≡ false
    → queued (entry ∷ queue) pc ≡ true
    → queued queue pc ≡ true
unfolding queued
queued-tail entry queue pc ne h = ground arith

taken-Covered :
    (jit : Jit) (entry : Entry) (queue : List Entry)
    → jit.compile_queue ≡ entry ∷ queue
    → Covered (λ _. false) jit
    → Covered (λ pc. entry.block == pc) (taken jit queue)
taken-Covered jit entry queue e c = record {
  at = λ pc block found bare. elim (Bool-cases (entry.block == pc)) [
    | inl same ↦ inr same
    | inr apart ↦ elim (c.at pc block found bare) [
      | inl waits ↦ inl (queued-tail entry queue pc apart (ap (λ q. queued q pc) (sym e) ∙ waits))
      | inr excepted ↦ absurd (ground arith)
    ]
  ];
}

module _ (env : Env) where
  -- What the loop goes on with after a compilation
  abbrev after : ℕ → Entry → Option Jit → Outcome Jit
  after fuel entry r = elim r [
    | none ↦ failed
    | some jit ↦ compile_all env fuel (returned jit entry)
  ]

  compile_all-step :
      (fuel : ℕ) (jit : Jit) (entry : Entry) (queue : List Entry)
      → jit.compile_queue ≡ entry ∷ queue
      → compile_all env (suc fuel) jit ≡ after fuel entry (compile env (taken jit queue) entry)
  unfolding compile_all
  compile_all-step fuel jit entry queue e = rw (e, compile_all) refl

  compile_all-end :
      (fuel : ℕ) (jit : Jit) → jit.compile_queue ≡ [] → compile_all env (suc fuel) jit ≡ done jit
  unfolding compile_all
  compile_all-end fuel jit e =
      ap
        (λ q. elim q [
          | [] ↦ done jit
          | entry ∷ queue ↦ after fuel entry (compile env (taken jit queue) entry)
        ])
        e

  returned-potential : (jit : Jit) (entry : Entry) → potential (returned jit entry) ≡ potential jit
  unfolding potential
  returned-potential jit entry = refl

  -- The loop over the compile queue makes at most as many rounds as there are blocks that wait or
  -- have not been asked for.
  pub compile_all-total :
      (fuel : ℕ) (jit : Jit) → potential jit < fuel → compile_all env fuel jit ≢ out_of_fuel
  compile_all-total zero jit h = absurd (omega arith)
  compile_all-total (suc fuel) jit h = elim (List-cases jit.compile_queue) [
    | inl empty ↦ λ bad. ended (sym (compile_all-end fuel jit empty) ∙ bad)
    | inr (entry, queue, e) ↦ λ bad. elim (Option-cases (compile env (taken jit queue) entry)) [
      | inl none_made ↦ refused (
          sym (ap (after fuel entry) none_made)
          ∙ (sym (compile_all-step fuel jit entry queue e) ∙ bad))
      | inr (jit', made) ↦
          let same = (compile-Compiled env (taken jit queue) jit' entry made).same in
          compile_all-total fuel (returned jit' entry)
            (omega (arith, same, taken-potential jit entry queue e, returned-potential jit' entry))
            (sym (ap (after fuel entry) made)
              ∙ (sym (compile_all-step fuel jit entry queue e) ∙ bad))
    ]
  ]
    where
      ended : ◌≡◌ {A = Outcome Jit} (done jit) out_of_fuel → ⊥
      ended bad = cc

      refused : ◌≡◌ {A = Outcome Jit} failed out_of_fuel → ⊥
      refused bad = cc

  -- If the loop ends, nothing waits to be compiled, all blocks have code, and no block is lost.
  pub record AllCompiled (jit jit' : Jit) : Type 0 where
    pub empty : jit'.compile_queue ≡ []
    pub covered : Covered (λ _. false) jit'
    pub linked : Linked jit'
    pub known :
        (pc : ℕ) (block : Block)
        → find_block jit pc ≡ some block
        → (block' : Block) × (find_block jit' pc ≡ some block')

  pub compile_all-AllCompiled :
      Yields env
      → (fuel : ℕ) (jit jit' : Jit) → Covered (λ _. false) jit
      → Linked jit
      → compile_all env fuel jit ≡ done jit'
      → AllCompiled jit jit'
  unfolding compile_all
  compile_all-AllCompiled yields zero jit jit' c l e = cc
  compile_all-AllCompiled yields (suc fuel) jit jit' c l e = elim (List-cases jit.compile_queue) [
    | inl empty ↦
        let s = same (sym (compile_all-end fuel jit empty) ∙ e) in
        rw⁻¹ s (record {
          empty = empty;
          covered = c;
          linked = l;
          known = λ pc block found. (block, found);
        })
    | inr (entry, queue, e') ↦ elim (Option-cases (compile env (taken jit queue) entry)) [
      | inl none_made ↦ absurd (
          refused (
            sym (ap (after fuel entry) none_made)
            ∙ (sym (compile_all-step fuel jit entry queue e') ∙ e)))
      | inr (next, made) ↦
          let step = compile-Compiled env (taken jit queue) next entry made in
          let rest =
            compile_all-AllCompiled yields fuel (returned next entry) jit'
              (record { at = (step.covered yields (taken-Covered jit entry queue e' c)).at })
              (record { at = (step.linked (record { at = l.at })).at })
              (sym (ap (after fuel entry) made)
                ∙ (sym (compile_all-step fuel jit entry queue e') ∙ e)) in
          record {
            empty = rest.empty;
            covered = rest.covered;
            linked = rest.linked;
            known = λ pc block found.
                let (block', found') = step.known pc block found in rest.known pc block' found';
          }
    ]
  ]
    where
      same : ◌≡◌ {A = Outcome Jit} (done jit) (done jit') → jit ≡ jit'
      same e = cc

      refused : ◌≡◌ {A = Outcome Jit} failed (done jit') → ⊥
      refused bad = cc
