-- ===== src/Refine/Item.antt =====
-- `buxn_jit_set_mem_base` and `buxn_jit_do_push`, as they run.
use buxn_jit.Prelude.{
  ℕ, ◌≡◌, ◌≢◌, ap, ◌∙◌, Bool, true, Option, none, some, List, ◌∷◌, arith, if◌then◌else◌, Bool-cases,
  inl, inr,
}
use buxn_jit.Lir.{
  Field, same_field, reg, imm, mem, offset_of, Instr, op1, op2, mov_u8, add, lshr, and, r_mem_base,
  r_mem_offset, r_tmp, s_vm,
}
use buxn_jit.Ctx.{Operand, Ctx, saved_ptr_reg, stack_field}
use buxn_jit.Cache.Spill.{set_mem_base, do_push, is_base}
use buxn_jit.Machine.{Machine, exec}
use buxn_jit.Refine.Bytes.{PointsAt}
use buxn_jit.Refine.Ensures.{>>=-run}

same_field-eq : (f g : Field) → same_field f g ≡ true → f ≡ g
same_field-eq f g h = ground arith

is_base-eq : (base : Option Field) (f : Field) → is_base base f ≡ true → base ≡ some f
is_base-eq none f h = cc
is_base-eq (some g) f h = ap some (same_field-eq g f h)

-- The context after `set_mem_base`
abbrev pub point_to : Field → Ctx → Ctx
point_to f ctx = record ctx {
  code =
      if is_base ctx.mem_base f
      then ctx.code
      else op2 add r_mem_base (reg s_vm) (offset_of f) ∷ ctx.code;
  mem_base = some f;
}

pub set_mem_base-point_to : (f : Field) (ctx : Ctx) → set_mem_base f ctx ≡ some (tt, point_to f ctx)
unfolding set_mem_base
set_mem_base-point_to f ctx = elim (Bool-cases (is_base ctx.mem_base f)) [
  | inl e ↦ rw e (ap (λ b. some (tt, record ctx { mem_base = b })) (is_base-eq ctx.mem_base f e))
  | inr e ↦ rw e
]

-- The calls of `do_push` after it, the last one first
abbrev pub item_code : Bool → Operand → List Instr → List Instr
item_code flag_r operand code =
    let sp = saved_ptr_reg flag_r in
    if operand.is_short
    then op2 add sp (reg sp) (imm 1)
      ∷ op1 mov_u8 mem (reg r_tmp)
      ∷ op2 and r_tmp (reg operand.reg) (imm 0xff)
      ∷ op1 mov_u8 (reg r_mem_offset) (reg sp)
      ∷ op2 add sp (reg sp) (imm 1)
      ∷ op1 mov_u8 mem (reg r_tmp)
      ∷ op2 lshr r_tmp (reg operand.reg) (imm 8)
      ∷ op1 mov_u8 (reg r_mem_offset) (reg sp)
      ∷ code
    else op2 add sp (reg sp) (imm 1)
      ∷ op1 mov_u8 mem (reg operand.reg)
      ∷ op1 mov_u8 (reg r_mem_offset) (reg sp)
      ∷ code

abbrev pub stored : Bool → Operand → Ctx → Ctx
stored flag_r operand ctx =
    let ctx' = point_to (stack_field flag_r) ctx in
    record ctx' { code = item_code flag_r operand ctx'.code }

pub do_push-run :
    (operand : Operand) (flag_r : Bool) (ctx : Ctx)
    → do_push operand flag_r ctx ≡ some (tt, stored flag_r operand ctx)
unfolding do_push
do_push-run operand flag_r ctx =
    >>=-run (set_mem_base (stack_field flag_r)) _ ctx
      (set_mem_base-point_to (stack_field flag_r) ctx)
    ∙ elim (Bool-cases operand.is_short) [ inl h ↦ rw h | inr h ↦ rw h ]

module _ (m : Machine) (s0 : m.State) where
  open m use {State, reg_of, cell}

  -- The machine after the calls made so far
  abbrev pub at : Ctx → State
  at ctx = exec m ctx.code s0

  abbrev pub BaseIs : Option Field → State → Type 0
  BaseIs none s = Unit {0}
  BaseIs (some f) s = PointsAt m s f

  -- What the context takes for granted of the machine's registers
  pub record Anchored (ctx : Ctx) : Type 0 where
    pub vm : reg_of (at ctx) s_vm ≡ m.vm
    pub base : BaseIs ctx.mem_base (at ctx)

  -- The memory base register is pointed at a field, and nothing else changes.
  pub record Pointed (f : Field) (ctx : Ctx) : Type 0 where
    pub points : PointsAt m (at (point_to f ctx)) f
    pub regs : (x : ℕ) → x ≢ r_mem_base → reg_of (at (point_to f ctx)) x ≡ reg_of (at ctx) x
    pub cells : (g : Field) (j : ℕ) → cell (at (point_to f ctx)) g j ≡ cell (at ctx) g j

  known_base :
      (base : Option Field) (f : Field) (s : State) → base ≡ some f → BaseIs base s → PointsAt m s f
  known_base base f s e b = rw e at b

  pub point_to-Pointed : (f : Field) (ctx : Ctx) → Anchored ctx → Pointed f ctx
  unfolding exec
  point_to-Pointed f ctx a = elim (Bool-cases (is_base ctx.mem_base f)) [
    | inl e ↦ record {
      points = rw e (known_base ctx.mem_base f (at ctx) (is_base-eq ctx.mem_base f e) a.base);
      regs = λ x ne. rw e;
      cells = λ g j. rw e;
    }
    | inr e ↦ record {
      points = rw e (simp m.reg_op2 (rw a.vm));
      regs = λ x ne. rw e (simp m.reg_op2 (ground arith));
      cells = λ g j. rw e (m.cell_op2 _ _ _ _ _ _ _);
    }
  ]
