-- ===== src/Refine/Bytes.antt =====
-- The calls that write one byte to a stack in memory, and those that read one.
use buxn_jit.Prelude.{
  ℕ, ◌+◌, ◌%◌, ◌^◌, ◌<◌, ◌≡◌, ◌≢◌, ap, arith, ◌&&◌, ◌==◌, if◌then◌else◌, Bool, true, false,
}
use buxn_jit.Lir.{
  Field, same_field, reg, imm, mem, op1, op2, mov_u8, Op2, add, r_mem_base, r_mem_offset, r_tmp,
}
use buxn_jit.Ctx.{stack_field}
use buxn_jit.Machine.{Machine, field_size, binary}

pub stack-room : (flag_r : Bool) (n : ℕ) → n % 256 < field_size (stack_field flag_r)
stack-room true n = omega arith
stack-room false n = omega arith

module _ (m : Machine) where
  open m use {
    State, step, reg_of, cell, reg_op1, cell_op1, reg_op2, cell_op2, reg_store, cell_store,
  }

  -- Where the memory base register points at a field
  abbrev pub PointsAt : State → Field → Type 0
  PointsAt s f = reg_of s r_mem_base ≡ (m.vm + m.offset f) % 2 ^ 64

  abbrev pub store_byte : State → ℕ → ℕ → State
  store_byte s sp r =
      step (op2 add sp (reg sp) (imm 1))
        (step (op1 mov_u8 mem (reg r)) (step (op1 mov_u8 (reg r_mem_offset) (reg sp)) s))

  pub reg-store_byte :
      (s : State) (sp r x : ℕ)
      → sp ≢ r_mem_offset
      → reg_of (store_byte s sp r) x ≡ (
          if sp == x
          then (reg_of s sp + 1) % 2 ^ 64
          else if r_mem_offset == x
          then reg_of s sp % 256
          else reg_of s x)
  reg-store_byte s sp r x h = simp (reg_op2, reg_store, reg_op1) (ground arith)

  pub cell-store_byte :
      (s : State) (flag_r : Bool) (sp r : ℕ) (g : Field) (j : ℕ)
      → PointsAt s (stack_field flag_r)
      → r ≢ r_mem_offset
      → cell (store_byte s sp r) g j ≡ (
          if same_field (stack_field flag_r) g && (reg_of s sp % 256 == j)
          then reg_of s r % 256
          else cell s g j)
  cell-store_byte s flag_r sp r g j b h =
      let s1 = step (op1 mov_u8 (reg r_mem_offset) (reg sp)) s in
      let at : reg_of s1 r_mem_offset ≡ reg_of s sp % 256 = simp reg_op1 in
      let low : reg_of s1 r_mem_offset < field_size (stack_field flag_r) =
        rw at (stack-room flag_r (reg_of s sp)) in
      let base : PointsAt s1 (stack_field flag_r) = simp reg_op1 b in
      let kept : reg_of s1 r ≡ reg_of s r = simp reg_op1 (ground arith) in
      simp (cell_op2, cell_store r s1 (stack_field flag_r) base low g j, cell_op1, at, kept)

  -- A byte by way of the scratch register: the pointer is read first, then the byte is computed.
  abbrev pub store_tmp : State → ℕ → Op2 → ℕ → ℕ → State
  store_tmp s sp o src k = step (op2 add sp (reg sp) (imm 1)) (
      step (op1 mov_u8 mem (reg r_tmp))
        (step (op2 o r_tmp (reg src) (imm k)) (step (op1 mov_u8 (reg r_mem_offset) (reg sp)) s)))

  pub reg-store_tmp :
      (s : State) (sp : ℕ) (o : Op2) (src k x : ℕ)
      → r_tmp < sp
      → r_tmp < x
      → reg_of (store_tmp s sp o src k) x
        ≡ (if sp == x then (reg_of s sp + 1) % 2 ^ 64 else reg_of s x)
  reg-store_tmp s sp o src k x h hx = simp (reg_op2, reg_store, reg_op1) (ground arith)

  pub base-store_tmp :
      (s : State) (sp : ℕ) (o : Op2) (src k : ℕ)
      → r_tmp < sp
      → reg_of (store_tmp s sp o src k) r_mem_base ≡ reg_of s r_mem_base
  base-store_tmp s sp o src k h = simp (reg_op2, reg_store, reg_op1) (ground arith)

  pub cell-store_tmp :
      (s : State) (flag_r : Bool) (sp : ℕ) (o : Op2) (src k : ℕ) (g : Field) (j : ℕ)
      → PointsAt s (stack_field flag_r)
      → r_tmp < src
      → cell (store_tmp s sp o src k) g j ≡ (
          if same_field (stack_field flag_r) g && (reg_of s sp % 256 == j)
          then binary o (reg_of s src) k % 256
          else cell s g j)
  cell-store_tmp s flag_r sp o src k g j b h =
      let s1 = step (op1 mov_u8 (reg r_mem_offset) (reg sp)) s in
      let s2 = step (op2 o r_tmp (reg src) (imm k)) s1 in
      let at : reg_of s2 r_mem_offset ≡ reg_of s sp % 256 = simp (reg_op2, reg_op1) in
      let low : reg_of s2 r_mem_offset < field_size (stack_field flag_r) =
        rw at (stack-room flag_r (reg_of s sp)) in
      let base : PointsAt s2 (stack_field flag_r) = simp (reg_op2, reg_op1) b in
      let kept : reg_of s2 r_tmp ≡ binary o (reg_of s src) k =
        simp (reg_op2, reg_op1) (ap (λ v. binary o v k) (ground arith)) in
      simp (cell_op2, cell_store r_tmp s2 (stack_field flag_r) base low g j, cell_op1, at, kept)
