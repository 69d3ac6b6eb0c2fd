-- ===== src/Hooks/Composite/Calls.antt =====
-- include/buxn/jit/composite_hook.h: which callbacks a hook that is composed of hooks calls, where these
-- may again be composed. The parts write down their number and what they are told.
use buxn_jit.Prelude.{
  ℕ, ◌≡◌, refl, sym, ◌∙◌, ap, Bool, if◌then◌else◌, Option, none, some, List, [], ◌∷◌, ◌++◌,
  append_assoc, Bool-cases, Option-cases, inl, inr,
}
use buxn_jit.Hooks.Composite.{Hook, all_begin_block, all_jit_opcode, all_end_block, composite}

-- A call: the number of the part, and the two numbers that it is told, 0 at the begin of a block
pub record Call : Type 0 where
  pub part : ℕ
  pub first : ℕ
  pub second : ℕ

-- A part has a number, and some of the callbacks.
pub record Part : Type 0 where
  pub number : ℕ
  pub has_begin_block : Bool
  pub has_jit_opcode : Bool
  pub has_end_block : Bool

mutual
  pub data Tree : Type 0 where
    single : Part → Tree
    group : Forest → Tree

  pub data Forest : Type 0 where
    no_trees : Forest
    more : Tree → Forest → Forest

abbrev pub log_call : ℕ → ℕ → ℕ → List Call → List Call
log_call n first second log = log ++ record { part = n; first = first; second = second } ∷ []

abbrev pub recorder : Part → Hook (List Call)
recorder p = record {
  begin_block = if p.has_begin_block then some (log_call p.number 0 0) else none;
  jit_opcode = if p.has_jit_opcode then some (log_call p.number) else none;
  end_block = if p.has_end_block then some (log_call p.number) else none;
}

mutual
  pub hook_of : Tree → Hook (List Call)
  hook_of (single p) = recorder p
  hook_of (group f) = composite (hooks_of f)

  pub hooks_of : Forest → List (Hook (List Call))
  hooks_of no_trees = []
  hooks_of (more t f) = hook_of t ∷ hooks_of f

pub data Callback : Type 0 where
  at_begin at_opcode at_end : Callback

-- Does the part have the callback?
abbrev pub has : Callback → Part → Bool
has at_begin p = p.has_begin_block
has at_opcode p = p.has_jit_opcode
has at_end p = p.has_end_block

abbrev told : Callback → ℕ → ℕ
told at_begin n = 0
told at_opcode n = n
told at_end n = n

-- The calls of the parts that have the callback, from the left to the right
unfoldable mutual
  pub calls : Callback → ℕ → ℕ → Tree → List Call
  calls k first second (single p) =
      if has k p
      then record { part = p.number; first = told k first; second = told k second } ∷ []
      else []
  calls k first second (group f) = all_calls k first second f

  pub all_calls : Callback → ℕ → ℕ → Forest → List Call
  all_calls k first second no_trees = []
  all_calls k first second (more t f) = calls k first second t ++ all_calls k first second f

-- A callback of one hook, called if it is there, and of a list of hooks
abbrev run_one : Option (List Call → List Call) → List Call → List Call
run_one none log = log
run_one (some f) log = f log

abbrev run_two : Option (ℕ → ℕ → List Call → List Call) → ℕ → ℕ → List Call → List Call
run_two none first second log = log
run_two (some f) first second log = f first second log

abbrev run : Callback → Hook (List Call) → ℕ → ℕ → List Call → List Call
run at_begin h first second log = run_one h.begin_block log
run at_opcode h first second log = run_two h.jit_opcode first second log
run at_end h first second log = run_two h.end_block first second log

abbrev run_all : Callback → List (Hook (List Call)) → ℕ → ℕ → List Call → List Call
run_all at_begin hooks first second log = all_begin_block hooks log
run_all at_opcode hooks first second log = all_jit_opcode hooks first second log
run_all at_end hooks first second log = all_end_block hooks first second log

append_nil : (log : List Call) → log ++ [] ≡ log
append_nil [] = refl
append_nil (c ∷ log) = ap (◌∷◌ c) (append_nil log)

run-recorder :
    (k : Callback) (p : Part) (first second : ℕ) (log : List Call)
    → run k (recorder p) first second log ≡ log ++ calls k first second (single p)
unfolding calls all_calls
run-recorder at_begin p first second log = elim (Bool-cases p.has_begin_block) [
  | inl there ↦ rw there refl
  | inr absent ↦ rw absent (sym (append_nil log))
]
run-recorder at_opcode p first second log = elim (Bool-cases p.has_jit_opcode) [
  | inl there ↦ rw there refl
  | inr absent ↦ rw absent (sym (append_nil log))
]
run-recorder at_end p first second log = elim (Bool-cases p.has_end_block) [
  | inl there ↦ rw there refl
  | inr absent ↦ rw absent (sym (append_nil log))
]

run-composite :
    (k : Callback) (hooks : List (Hook (List Call))) (first second : ℕ) (log : List Call)
    → run k (composite hooks) first second log ≡ run_all k hooks first second log
unfolding composite
run-composite at_begin hooks first second log = refl
run-composite at_opcode hooks first second log = refl
run-composite at_end hooks first second log = refl

run_all-empty :
    (k : Callback) (first second : ℕ) (log : List Call) → run_all k [] first second log ≡ log
unfolding all_begin_block all_jit_opcode all_end_block
run_all-empty at_begin first second log = refl
run_all-empty at_opcode first second log = refl
run_all-empty at_end first second log = refl

run_all-cons :
    (k : Callback) (h : Hook (List Call)) (hooks : List (Hook (List Call))) (first second : ℕ)
    (log : List Call)
    → run_all k (h ∷ hooks) first second log
      ≡ run_all k hooks first second (run k h first second log)
unfolding all_begin_block all_jit_opcode all_end_block
run_all-cons at_begin h hooks first second log = elim (Option-cases h.begin_block) [
  | inl absent ↦ rw absent refl
  | inr (f, there) ↦ rw there refl
]
run_all-cons at_opcode h hooks first second log = elim (Option-cases h.jit_opcode) [
  | inl absent ↦ rw absent refl
  | inr (f, there) ↦ rw there refl
]
run_all-cons at_end h hooks first second log = elim (Option-cases h.end_block) [
  | inl absent ↦ rw absent refl
  | inr (f, there) ↦ rw there refl
]

mutual
  unfolding hook_of hooks_of calls all_calls

  run-calls :
      (k : Callback) (t : Tree) (first second : ℕ) (log : List Call)
      → run k (hook_of t) first second log ≡ log ++ calls k first second t
  run-calls k (single p) first second log = run-recorder k p first second log
  run-calls k (group f) first second log =
      run-composite k (hooks_of f) first second log ∙ run_all-calls k f first second log

  run_all-calls :
      (k : Callback) (f : Forest) (first second : ℕ) (log : List Call)
      → run_all k (hooks_of f) first second log ≡ log ++ all_calls k first second f
  run_all-calls k no_trees first second log =
      run_all-empty k first second log ∙ sym (append_nil log)
  run_all-calls k (more t f) first second log =
      run_all-cons k (hook_of t) (hooks_of f) first second log
      ∙ ap (run_all k (hooks_of f) first second) (run-calls k t first second log)
      ∙ run_all-calls k f first second (log ++ calls k first second t)
      ∙ append_assoc log (calls k first second t) (all_calls k first second f)

-- However hooks are nested in composite hooks, each of the three callbacks is called for each of
-- their parts that has it, once and in the order of the parts, with the two numbers that it is told.
pub composite-calls :
    (f : Forest) (first second : ℕ) (log : List Call)
    → (all_begin_block (hooks_of f) log ≡ log ++ all_calls at_begin 0 0 f)
      × (all_jit_opcode (hooks_of f) first second log ≡ log ++ all_calls at_opcode first second f)
      × (all_end_block (hooks_of f) first second log ≡ log ++ all_calls at_end first second f)
composite-calls f first second log = (
  run_all-calls at_begin f 0 0 log,
  run_all-calls at_opcode f first second log,
  run_all-calls at_end f first second log,
)
