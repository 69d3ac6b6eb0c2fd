-- ===== src/Refine/Increment.antt =====
-- INC against the instruction set, where nothing else is in the register of its operand.
use buxn_jit.Prelude.{
  ℕ, ◌+◌, ◌-◌, ◌%◌, ◌<◌, ◌≡◌, refl, ap, ◌∙◌, Bool, true, false, List, [], ◌∷◌, arith, length,
}
use buxn_jit.Lir.{reg, imm, op2, add, and, r_op_min}
use buxn_jit.Ctx.{Ctx}
use buxn_jit.Regs.{op_flag_2}
use buxn_jit.Micro.Stack.{width, push_operand}
use buxn_jit.Micro.Memory.{addr_mask}
use buxn_jit.Opcodes.Stack.{inc_operand, jit_inc}
use buxn_jit.Opcodes.Control.{inc}
use buxn_jit.Machine.{Machine, exec}
use buxn_jit.Refine.Shape.{Shaped-trans, Shaped-caches}
use buxn_jit.Refine.Ensures.{Ensures, Ensures-mono}
use buxn_jit.Refine.Item.{at}
use buxn_jit.Refine.Alloc.{hold, nothing_held}
use buxn_jit.Refine.Side.{w_of, r_of, Alone, Ready, Quiet-trans}
use buxn_jit.Refine.Compute.{Wrote, with_code, Wrote-Inv, Wrote-Quiet}
use buxn_jit.Refine.Session.{Session, own_bound, length-on, pop_step, push_last, Performs}
use buxn_jit.Refine.Moves.{items-one}
use buxn_jit.Refine.Widths.{add-width, mod-width}

one-lt : (two : Bool) → 1 < width two
one-lt true = omega arith
one-lt false = omega arith

module _ (m : Machine) (s0 : m.State) (flag_r two : Bool) (ctx : Ctx) (l o : List ℕ)
    (start : Session m s0 flag_r nothing_held ctx ctx l o) where
  open m use {reg_of}

  pub jit_inc-Performs :
      Ready flag_r two (two ∷ []) ctx l
      → Alone flag_r ctx
      → Ensures (λ _. Performs m s0 inc flag_r two ctx l o) (jit_inc ctx)
  unfolding jit_inc exec
  jit_inc-Performs ready alone =
      pop_step m s0 flag_r two nothing_held [] ctx ctx l o _ _ start ready λ x ctx1 p.
        let held = hold nothing_held x.reg in
        let sole = p.alone alone in
        let count = p.session.inv.counted (x.reg - r_op_min) in
        let v' = (p.v + 1) % width two in
        let code =
          op2 and x.reg (reg x.reg) (imm (addr_mask (op_flag_2 ctx1.current_opcode)))
          ∷ op2 add x.reg (reg x.reg) (imm 1)
          ∷ ctx1.code in
        let ctx2 = with_code m s0 code ctx1 in
        let wrote : Wrote m s0 x.reg (at m s0 ctx1) (at m s0 ctx2) = record {
          regs = λ y ne _. simp m.reg_op2 (ground arith);
          cells = λ f j. m.cell_op2 _ _ _ _ _ _ _ ∙ m.cell_op2 _ _ _ _ _ _ _;
        } in
        let value : reg_of (at m s0 ctx2) x.reg ≡ v' = simp m.reg_op2 (
          rw (p.ready.mode, p.own.value)
            (ground (arith, add-width two 1 p.v (one-lt two) p.own.fits))) in
        Ensures-mono _ _ (push_operand (inc_operand x) ctx2)
          (push_last m s0 flag_r two held ctx ctx2 p.rest o (inc_operand x) v'
            (record {
              inv =
                  Wrote-Inv m s0 held x.reg ctx1 code (w_of flag_r p.rest o) (r_of flag_r p.rest o)
                    p.own.lo p.own.hi (ground (arith, count, sole)) (ground (arith, count, sole))
                    wrote p.session.inv;
              quiet =
                  Quiet-trans m s0 ctx ctx1 ctx2 p.session.quiet
                    (Wrote-Quiet m s0 x.reg ctx1 code wrote);
              side = p.session.side;
            })
            (record {
              is_short = p.own.is_short;
              lo = p.own.lo;
              hi = p.own.hi;
              value = value;
              fits = mod-width two (p.v + 1);
              used = p.own.used;
            })
            (ground arith)
            (omega (
              arith,
              own_bound m s0 flag_r nothing_held ctx ctx l o start,
              ap length p.item,
              length-on two p.v p.rest,
            )))
          λ _ ctx3 t. record {
            values = p.v ∷ [];
            short = two;
            results = v' ∷ [];
            rest = p.rest;
            held = held;
            bounded = (p.own.fits, tt);
            before = p.item ∙ items-one two p.v p.rest;
            spec = refl;
            inv = rw (items-one two v' p.rest) at t.session.inv;
            quiet = t.session.quiet;
            shape = Shaped-trans flag_r two ctx ctx1 ctx3 (p.shape two) (
                Shaped-trans flag_r two ctx1 ctx2 ctx3
                  (Shaped-caches flag_r two ctx1 ctx2 refl refl) t.shape);
          }
