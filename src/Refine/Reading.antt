-- ===== src/Refine/Reading.antt =====
-- The calls with which `buxn_jit_pop_from_mem` reads an item off a stack in memory.
use buxn_jit.Prelude.{
  ℕ, ◌+◌, ◌*◌, ◌/◌, ◌%◌, ◌^◌, ◌<◌, ◌≤◌, ◌≡◌, ◌≢◌, refl, ap, ◌∙◌, Bool, true, false, List, [], ◌∷◌,
  ◌++◌, arith, length, ◌==◌, if◌then◌else◌,
}
use buxn_jit.Prelude.Bits.{bit_or-low}
use buxn_jit.Lir.{
  Field, reg, imm, mem, op1, op2, mov_u8, sub, shl, or, r_mem_base, r_mem_offset, r_tmp,
}
use buxn_jit.Ctx.{saved_ptr_reg, stack_field}
use buxn_jit.Micro.Stack.{width, size}
use buxn_jit.Machine.{Machine, field_size}
use buxn_jit.Refine.Below.{Below}
use buxn_jit.Refine.Bytes.{PointsAt, stack-room}
use buxn_jit.Refine.Push.{item_bytes, saved_ptr-gt}

-- The top of a stack in memory
pub top_byte :
    (cells : ℕ → ℕ) (p v q : ℕ) (l : List ℕ)
    → 1 ≤ length l
    → Below cells p l
    → v < 256
    → v ≡ cells ((p + 255) % 256)
    → q ≡ (p + 255) % 256
    → (rest : List ℕ) × (l ≡ item_bytes false v ++ rest) × Below cells q rest
top_byte cells p v q [] h below small e e' = absurd (omega arith)
top_byte cells p v q (b ∷ l) h (top, below) small e e' =
    let it : b ≡ v % 256 = omega arith in (l, ap (λ t. t ∷ l) it, rw e' below)

pub top_short :
    (cells : ℕ → ℕ) (p low high v q : ℕ) (l : List ℕ)
    → 2 ≤ length l
    → Below cells p l
    → low < 256
    → high < 256
    → low ≡ cells ((p + 255) % 256)
    → high ≡ cells (((p + 255) % 256 + 255) % 256)
    → v ≡ high * 256 + low
    → q ≡ ((p + 255) % 256 + 255) % 256
    → (rest : List ℕ) × (l ≡ item_bytes true v ++ rest) × Below cells q rest
top_short cells p low high v q [] h below hl hh e e' ev eq = absurd (omega arith)
top_short cells p low high v q (b ∷ []) h below hl hh e e' ev eq = absurd (omega arith)
top_short cells p low high v q (b ∷ c ∷ l) h (at_low, (at_high, below)) hl hh e e' ev eq =
    let is_low : b ≡ v % 256 = omega arith in
    let is_high : c ≡ v / 2 ^ 8 % 256 = omega arith in (l, rw (is_low, is_high), rw eq below)

module _ (m : Machine) where
  open m use {
    State, step, reg_of, cell, cell_byte, loaded, loaded_cell, reg_op1, cell_op1, reg_op2, cell_op2,
  }

  abbrev pub read_byte : State → ℕ → ℕ → State
  read_byte s sp dst =
      step (op1 mov_u8 (reg dst) mem)
        (step (op1 mov_u8 (reg r_mem_offset) (reg sp)) (step (op2 sub sp (reg sp) (imm 1)) s))

  -- The top byte goes to a register, and the pointer moves down.
  pub record Read (flag_r : Bool) (dst : ℕ) (s s' : State) : Type 0 where
    pub byte :
        reg_of s' dst ≡ cell s (stack_field flag_r) ((reg_of s (saved_ptr_reg flag_r) + 255) % 256)
    pub pointer :
        reg_of s' (saved_ptr_reg flag_r) % 256 ≡ (reg_of s (saved_ptr_reg flag_r) + 255) % 256
    pub regs :
        (x : ℕ) → x ≢ r_mem_offset → x ≢ saved_ptr_reg flag_r → x ≢ dst → reg_of s' x ≡ reg_of s x
    pub cells : (g : Field) (j : ℕ) → cell s' g j ≡ cell s g j

  pub read_byte-Read :
      (flag_r : Bool) (s : State) (dst : ℕ)
      → PointsAt m s (stack_field flag_r)
      → dst ≢ r_mem_offset
      → dst ≢ saved_ptr_reg flag_r
      → Read flag_r dst s (read_byte s (saved_ptr_reg flag_r) dst)
  read_byte-Read flag_r s dst b hd hs =
      let sp = saved_ptr_reg flag_r in
      let gt = saved_ptr-gt flag_r in
      let s1 = step (op2 sub sp (reg sp) (imm 1)) s in
      let s2 = step (op1 mov_u8 (reg r_mem_offset) (reg sp)) s1 in
      let at : reg_of s2 r_mem_offset ≡ (reg_of s sp + 255) % 256 =
        simp (reg_op1, reg_op2) (ground arith) in
      let low : reg_of s2 r_mem_offset < field_size (stack_field flag_r) =
        rw at (stack-room flag_r (reg_of s sp + 255)) in
      let base : PointsAt m s2 (stack_field flag_r) = simp (reg_op1, reg_op2) (ground arith) in
      let value : loaded s2 ≡ cell s (stack_field flag_r) ((reg_of s sp + 255) % 256) =
        loaded_cell s2 (stack_field flag_r) base low ∙ simp (cell_op1, cell_op2) (rw at) in
      let small = cell_byte s (stack_field flag_r) ((reg_of s sp + 255) % 256) in
      record {
        byte = simp reg_op1 (ground (arith, value));
        pointer = simp (reg_op1, reg_op2) (ground arith);
        regs = λ x ho hp hx. simp (reg_op1, reg_op2) (ground arith);
        cells = λ g j. simp (cell_op1, cell_op2) refl;
      }

  -- An item off the top of its stack, which is then one item shorter
  pub record Loaded (flag_r two : Bool) (dst : ℕ) (s s' : State) : Type 0 where
    pub fits : reg_of s' dst < width two
    pub regs : (x : ℕ) → r_tmp < x → x ≢ saved_ptr_reg flag_r → x ≢ dst → reg_of s' x ≡ reg_of s x
    pub base : reg_of s' r_mem_base ≡ reg_of s r_mem_base
    pub cells : (g : Field) (j : ℕ) → cell s' g j ≡ cell s g j
    pub taken :
        (l : List ℕ)
        → size two ≤ length l
        → Below (cell s (stack_field flag_r)) (reg_of s (saved_ptr_reg flag_r) % 256) l
        → (rest : List ℕ) × (l ≡ item_bytes two (reg_of s' dst) ++ rest)
          × Below (cell s (stack_field flag_r)) (reg_of s' (saved_ptr_reg flag_r) % 256) rest

  pub byte-Loaded :
      (flag_r : Bool) (s : State) (dst : ℕ)
      → PointsAt m s (stack_field flag_r)
      → r_tmp < dst
      → dst ≢ saved_ptr_reg flag_r
      → Loaded flag_r false dst s (read_byte s (saved_ptr_reg flag_r) dst)
  byte-Loaded flag_r s dst b hd hs =
      let sp = saved_ptr_reg flag_r in
      let gt = saved_ptr-gt flag_r in
      let k = read_byte-Read flag_r s dst b (omega arith) hs in
      let p = reg_of s sp % 256 in
      let same : (reg_of s sp + 255) % 256 ≡ (p + 255) % 256 = omega arith in
      let small = cell_byte s (stack_field flag_r) ((reg_of s sp + 255) % 256) in
      record {
        fits = omega (arith, k.byte);
        regs = λ x h hp hx. k.regs x (omega arith) hp hx;
        base = k.regs r_mem_base (omega arith) (omega arith) (omega arith);
        cells = k.cells;
        taken = λ l h below.
            top_byte (cell s (stack_field flag_r)) p _ _ l h below (omega (arith, k.byte))
              (k.byte ∙ ap (cell s (stack_field flag_r)) same) (k.pointer ∙ same);
      }

  -- The state after both bytes of a short have been read and joined
  abbrev pub join_bytes : State → ℕ → State
  join_bytes s dst =
      step (op2 or dst (reg dst) (reg r_tmp)) (step (op2 shl r_tmp (reg r_tmp) (imm 8)) s)

  reg-join_bytes :
      (s : State) (dst x : ℕ)
      → dst ≢ r_tmp
      → reg_of s dst < 256
      → reg_of s r_tmp < 256
      → reg_of (join_bytes s dst) x ≡ (
          if dst == x
          then reg_of s r_tmp * 256 + reg_of s dst
          else if r_tmp == x
          then reg_of s r_tmp * 256
          else reg_of s x)
  reg-join_bytes s dst x h hd ht =
      let joined =
        bit_or-low 8 (reg_of s dst) (reg_of s r_tmp) (reg_of s r_tmp * 2 ^ 8 % 2 ^ 64) (omega arith)
          hd in
      simp reg_op2 (ground (arith, joined))

  pub short-Loaded :
      (flag_r : Bool) (s : State) (dst : ℕ)
      → PointsAt m s (stack_field flag_r)
      → r_tmp < dst
      → dst ≢ saved_ptr_reg flag_r
      → let sp = saved_ptr_reg flag_r in
        Loaded flag_r true dst s (join_bytes (read_byte (read_byte s sp dst) sp r_tmp) dst)
  short-Loaded flag_r s dst b hd hs =
      let sp = saved_ptr_reg flag_r in
      let gt = saved_ptr-gt flag_r in
      let f = stack_field flag_r in
      let p = reg_of s sp % 256 in
      let s1 = read_byte s sp dst in
      let s2 = read_byte s1 sp r_tmp in
      let k1 = read_byte-Read flag_r s dst b (omega arith) hs in
      let points : PointsAt m s1 f =
        k1.regs r_mem_base (omega arith) (omega arith) (omega arith) ∙ b in
      let k2 = read_byte-Read flag_r s1 r_tmp points (omega arith) (omega arith) in
      let same1 : (reg_of s sp + 255) % 256 ≡ (p + 255) % 256 = omega arith in
      let same2 : (reg_of s1 sp + 255) % 256 ≡ ((p + 255) % 256 + 255) % 256 =
        omega (arith, k1.pointer) in
      let low : reg_of s2 dst ≡ cell s f ((p + 255) % 256) =
        k2.regs dst (omega arith) hs (omega arith) ∙ k1.byte ∙ ap (cell s f) same1 in
      let high : reg_of s2 r_tmp ≡ cell s f (((p + 255) % 256 + 255) % 256) =
        k2.byte ∙ k1.cells f _ ∙ ap (cell s f) same2 in
      let low_small : reg_of s2 dst < 256 = rw low (cell_byte s f ((p + 255) % 256)) in
      let high_small : reg_of s2 r_tmp < 256 = rw high (cell_byte s f _) in
      let joined = λ (x : ℕ). reg-join_bytes s2 dst x (omega arith) low_small high_small in
      record {
        fits = ground (arith, joined dst);
        regs = λ x h hp hx.
            let at1 = k1.regs x (omega arith) hp hx in
            let at2 = k2.regs x (omega arith) hp (omega arith) in ground (arith, joined x);
        base = ground (
          arith,
          joined r_mem_base,
          k1.regs r_mem_base (omega arith) (omega arith) (omega arith),
          k2.regs r_mem_base (omega arith) (omega arith) (omega arith),
        );
        cells = λ g j. simp cell_op2 (k2.cells g j ∙ k1.cells g j);
        taken = λ l h below.
            top_short (cell s f) p (reg_of s2 dst) (reg_of s2 r_tmp) _ _ l h below low_small
              high_small low high (ground (arith, joined dst))
              (ground (arith, joined sp, k2.pointer, same2));
      }
