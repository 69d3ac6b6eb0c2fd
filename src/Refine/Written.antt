-- ===== src/Refine/Written.antt =====
-- The effect of `buxn_jit_do_push` on the machine.
use buxn_jit.Prelude.{
  ℕ, ◌+◌, ◌%◌, ◌<◌, ◌≤◌, ◌≡◌, ◌≢◌, ◌∙◌, Bool, true, false, List, ◌++◌, arith, length, Bool-cases,
  inl, inr, bit_and, some,
}
use buxn_jit.Prelude.Bits.{bit_and_byte}
use buxn_jit.Lir.{Field, same_field, lshr, and, r_mem_base, r_tmp, s_vm}
use buxn_jit.Ctx.{Operand, Ctx, saved_ptr_reg, stack_field}
use buxn_jit.Machine.{Machine, exec}
use buxn_jit.Refine.Bytes.{PointsAt, store_tmp}
use buxn_jit.Refine.Below.{Below, Below-congr}
use buxn_jit.Refine.Push.{
  item_bytes, length-item_bytes, saved_ptr-gt, Pushed, Pushed-two, store_byte-Pushed,
  store_tmp-Pushed,
}
use buxn_jit.Cache.Spill.{do_push}
use buxn_jit.Refine.Item.{do_push-run, point_to, stored, at, Anchored, point_to-Pointed}

module _ (m : Machine) (s0 : m.State) where
  open m use {State, reg_of, cell}

  -- The calls of `do_push` after it, on any machine whose base register points at the stack
  short-Pushed :
      (flag_r : Bool) (s : State) (r : ℕ)
      → PointsAt m s (stack_field flag_r)
      → r_tmp < r
      → saved_ptr_reg flag_r ≢ r
      → Pushed m flag_r (item_bytes true (reg_of s r)) s (
          store_tmp m
            (store_tmp m s (saved_ptr_reg flag_r) lshr r 8)
            (saved_ptr_reg flag_r)
            and
            r
            0xff)
  short-Pushed flag_r s r b hr hs =
      let s' = store_tmp m s (saved_ptr_reg flag_r) lshr r 8 in
      let hi = store_tmp-Pushed m flag_r s lshr r 8 b hr in
      let lo = store_tmp-Pushed m flag_r s' and r 0xff (hi.base ∙ b) hr in
      let low : bit_and (reg_of s' r) 0xff % 256 ≡ reg_of s r % 256 =
        omega (arith, bit_and_byte (reg_of s' r), hi.regs r hr hs) in
      rw low at (Pushed-two m flag_r _ _ s s' _ hi lo)

  pub stored-Pushed :
      (flag_r : Bool) (operand : Operand) (ctx : Ctx)
      → Anchored m s0 ctx
      → r_tmp < operand.reg
      → saved_ptr_reg flag_r ≢ operand.reg
      → let s = at m s0 (point_to (stack_field flag_r) ctx) in
        Pushed m flag_r
          (item_bytes operand.is_short (reg_of s operand.reg))
          s
          (at m s0 (stored flag_r operand ctx))
  unfolding exec
  stored-Pushed flag_r operand ctx a hr hs =
      let s = at m s0 (point_to (stack_field flag_r) ctx) in
      let points = (point_to-Pointed m s0 (stack_field flag_r) ctx a).points in
      elim (Bool-cases operand.is_short) [
        | inl e ↦ rw e (short-Pushed flag_r s operand.reg points hr hs)
        | inr e ↦ rw e (store_byte-Pushed m flag_r s operand.reg points hr)
      ]

  -- What `do_push` does: the item's bytes are pushed on its stack in memory; the operand registers,
  -- the other stack and the rest of the VM stay as they are.
  pub record Written (flag_r : Bool) (operand : Operand) (ctx : Ctx) : Type 0 where
    pub anchored : Anchored m s0 (stored flag_r operand ctx)
    pub regs :
        (x : ℕ)
        → r_tmp < x
        → saved_ptr_reg flag_r ≢ x
        → reg_of (at m s0 (stored flag_r operand ctx)) x ≡ reg_of (at m s0 ctx) x
    pub others :
        (g : Field) (j : ℕ)
        → same_field (stack_field flag_r) g ≡ false
        → cell (at m s0 (stored flag_r operand ctx)) g j ≡ cell (at m s0 ctx) g j
    pub below :
        (l : List ℕ)
        → length (item_bytes operand.is_short 0) + length l ≤ 256
        → Below
            (cell (at m s0 ctx) (stack_field flag_r))
            (reg_of (at m s0 ctx) (saved_ptr_reg flag_r) % 256)
            l
        → Below
            (cell (at m s0 (stored flag_r operand ctx)) (stack_field flag_r))
            (reg_of (at m s0 (stored flag_r operand ctx)) (saved_ptr_reg flag_r) % 256)
            (item_bytes operand.is_short (reg_of (at m s0 ctx) operand.reg) ++ l)

  saved_ptr-ne_vm : (flag_r : Bool) → saved_ptr_reg flag_r ≢ s_vm
  saved_ptr-ne_vm true = omega arith
  saved_ptr-ne_vm false = omega arith

  pub stored-Written :
      (flag_r : Bool) (operand : Operand) (ctx : Ctx)
      → Anchored m s0 ctx
      → r_tmp < operand.reg
      → saved_ptr_reg flag_r ≢ operand.reg
      → Written flag_r operand ctx
  stored-Written flag_r operand ctx a hr hs =
      let f = stack_field flag_r in
      let sp = saved_ptr_reg flag_r in
      let s = at m s0 (point_to f ctx) in
      let q = point_to-Pointed m s0 f ctx a in
      let p = stored-Pushed flag_r operand ctx a hr hs in
      let ne : sp ≢ r_mem_base = omega (arith, saved_ptr-gt flag_r) in
      record {
        anchored = record {
          vm =
              p.regs s_vm (omega arith) (saved_ptr-ne_vm flag_r) ∙ q.regs s_vm (omega arith) ∙ a.vm;
          base = p.base ∙ q.points;
        };
        regs = λ x hx hs'. p.regs x hx hs' ∙ q.regs x (omega arith);
        others = λ g j hg. p.others g j hg ∙ q.cells g j;
        below = λ l hl h.
            let value : reg_of s operand.reg ≡ reg_of (at m s0 ctx) operand.reg =
              q.regs operand.reg (omega arith) in
            let pointer : reg_of s sp ≡ reg_of (at m s0 ctx) sp = q.regs sp ne in
            let start : Below (cell s f) (reg_of s sp % 256) l = rw pointer (
              Below-congr (cell (at m s0 ctx) f) (cell s f) (reg_of (at m s0 ctx) sp % 256) l
                (λ j. q.cells f j) h) in
            rw value at (p.below l (rw length-item_bytes hl) start);
      }

  -- With the VM's register and the memory base in order, and an operand that is neither in a
  -- scratch register nor in the stack pointer, writing it out fails no assertion: its bytes are
  -- the new top of its stack in memory, while the stack has room, and the other operand registers,
  -- the other stack and the rest of the VM stay as they are.
  pub do_push-Written :
      (flag_r : Bool) (operand : Operand) (ctx : Ctx)
      → Anchored m s0 ctx
      → r_tmp < operand.reg
      → saved_ptr_reg flag_r ≢ operand.reg
      → (do_push operand flag_r ctx ≡ some (tt, stored flag_r operand ctx))
        × Written flag_r operand ctx
  do_push-Written flag_r operand ctx a hr hs =
      (do_push-run operand flag_r ctx, stored-Written flag_r operand ctx a hr hs)
