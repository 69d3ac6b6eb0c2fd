-- ===== src/Compile/Execute.antt =====
-- src/jit.c, `buxn_jit_execute`, `buxn_jit_translate_jump_addr` and `buxn_jit_cleanup`. Generated code
-- and the interpreter of the VM are arguments: `run` is the call of a block's code, which may call
-- back into the JIT, and `vm_execute` is `buxn_vm_execute`.
use buxn_jit.Prelude.{
  ℕ, ◌+◌, ◌<◌, ◌≤◌, ◌^◌, ◌%◌, ◌≡◌, refl, sym, ◌∙◌, ap, leb, ltb, Option, none, some, List, [], ◌∷◌,
  if◌then◌else◌, arith,
}
use buxn_jit.Jit.{Jit, Block, find_block}
use buxn_jit.Compile.Block.{Env}
use buxn_jit.Compile.Installed.{Yields}
use buxn_jit.Compile.Queues.{Outcome, done, failed, out_of_fuel, Worked, has_code, translate}
use buxn_jit.Compile.Translate.{Settled, translate-Settled}

-- The address that the trampoline calls
abbrev pub head_of : Option Block → ℕ
head_of none = 0
head_of (some block) = block.head_addr

unfoldable pub translate_jump_addr : Env → ℕ → Jit → ℕ → Outcome (ℕ × Jit)
unfolding translate
translate_jump_addr env fuel jit target = elim (translate env fuel jit (target % 2 ^ 16)) [
  | failed ↦ failed
  | out_of_fuel ↦ out_of_fuel
  | done w ↦ done (head_of (find_block w.jit (target % 2 ^ 16)), w.jit)
]

-- The code that `buxn_jit_cleanup` frees, over the list of all blocks
unfoldable pub cleanup : Jit → List ℕ → List ℕ
cleanup jit [] = []
cleanup jit (pc ∷ blocks) =
    let rest = cleanup jit blocks in
    elim (has_code (find_block jit pc)) [ none ↦ rest | some fn ↦ fn ∷ rest ]

-- The state of the VM, and of the JIT, after the code of a block has run, and what it returned
pub record Ran (V : Type 0) : Type 0 where
  pub next : ℕ
  pub vm : V
  pub jit : Jit

abbrev pub bounced : Jit → Jit
bounced jit = record jit { num_bounces = jit.num_bounces + 1 }

module _ {V : Type 0} (run : V → Jit → ℕ → Ran V) (vm_execute : V → ℕ → V) where
  -- What follows the call: `next` is above 0xffff after BRK, else an address of the zero page.
  unfoldable pub leave : Ran V → Outcome (V × Jit)
  leave r =
      if ltb 0xffff r.next
      then done (r.vm, r.jit)
      else if leb r.next 0xff
      then done (vm_execute r.vm r.next, bounced r.jit)
      else failed

  -- The call of the block's code; NULL cannot be called.
  unfoldable pub call_block : V → Jit → Option ℕ → Outcome (V × Jit)
  unfolding leave
  call_block vm jit none = failed
  call_block vm jit (some fn) = leave (run vm jit fn)

  unfoldable pub execute : Env → ℕ → Jit → V → ℕ → Outcome (V × Jit)
  unfolding translate call_block
  execute env fuel jit vm pc = elim (translate env fuel jit pc) [
    | failed ↦ failed
    | out_of_fuel ↦ out_of_fuel
    | done w ↦ call_block vm w.jit (has_code (find_block w.jit pc))
  ]

  -- The code of a block returned an address that is neither of the zero page nor the mark of BRK.
  pub record Strayed (vm : V) (w : Worked) (fn : ℕ) : Type 0 where
    pub above : 0xff < (run vm w.jit fn).next
    pub below : (run vm w.jit fn).next ≤ 0xffff

  -- Why an execution fails
  pub data Cause (env : Env) (fuel : ℕ) (jit : Jit) (vm : V) (pc : ℕ) : Type 0 where
    uncompiled : translate env fuel jit pc ≡ failed → Cause env fuel jit vm pc
    strayed :
        (w : Worked) (fn : ℕ)
        → translate env fuel jit pc ≡ done w
        → Strayed vm w fn
        → Cause env fuel jit vm pc

  leave-failed : (r : Ran V) → leave r ≡ failed → (0xff < r.next) × (r.next ≤ 0xffff)
  unfolding leave
  leave-failed r e = (ground arith, ground arith)

  -- If sljit always yields code, and the JIT is settled, an execution from an address of sixteen
  -- bits fails only if an assertion fails while compiling, or if the code of the block returns an
  -- address that is neither of the zero page nor above 0xffff; a block without code is never
  -- called.
  pub execute-failed :
      (env : Env) (fuel : ℕ) (jit : Jit) (vm : V) (pc : ℕ)
      → pc < 2 ^ 16
      → Yields env
      → Settled jit
      → execute env fuel jit vm pc ≡ failed
      → Cause env fuel jit vm pc
  unfolding execute call_block
  execute-failed env fuel jit vm pc short yields s e = by_answer (translate env fuel jit pc) refl e
    where
      by_answer :
          (o : Outcome Worked)
          → translate env fuel jit pc ≡ o
          → ◌≡◌ {A = Outcome (V × Jit)}
              (elim o [
                | failed ↦ failed
                | out_of_fuel ↦ out_of_fuel
                | done w ↦ call_block vm w.jit (has_code (find_block w.jit pc))
              ])
              failed
          → Cause env fuel jit vm pc
      by_answer failed t e = uncompiled t
      by_answer out_of_fuel t e = cc
      by_answer (done w) t e =
          let a = (translate-Settled env fuel jit pc w short yields s t).1 in
          let coded = ap has_code a.found ∙ a.code in
          let (above, below) =
            leave-failed (run vm w.jit a.fn) (sym (ap (call_block vm w.jit) coded) ∙ e) in
          strayed w a.fn t (record { above = above; below = below })
