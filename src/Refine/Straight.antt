-- ===== src/Refine/Straight.antt =====
-- The opcodes that work on one stack, from `buxn_jit_next_opcode`'s switch to the instruction set.
use buxn_jit.Prelude.{
  ℕ, ◌+◌, ◌-◌, ◌*◌, ◌%◌, ◌≤◌, ◌≡◌, ◌≢◌, [], refl, Bool, true, false, List, arith, length, bit_and,
  bit_or, bit_xor,
}
use buxn_jit.Lir
use buxn_jit.Lir.{sub_z, sub_greater, sub_less, equal, not_equal, greater, less}
use buxn_jit.Ctx.{Ctx, M}
use buxn_jit.Regs.{op_flag_k}
use buxn_jit.Micro.Stack.{size, width}
use buxn_jit.Opcodes.Arith.{
  jit_add, jit_sub, jit_mul, jit_and, jit_ora, jit_eor, jit_equ, jit_neq, jit_gth, jit_lth,
  fold_add, fold_sub, fold_mul,
}
use buxn_jit.Opcodes.Control.{
  Opcode, brk, inc, pop, nip, swp, rot, dup, ovr, equ, neq, gth, lth, jmp, jcn, jsr, sth, ldz, stz,
  ldr, str, lda, sta, dei, deo, add, sub, mul, div, and, ora, eor, sft, jci, jmi, jsi, lit,
  dispatch,
}
use buxn_jit.Machine.{Machine}
use buxn_jit.Refine.Ensures.{Ensures}
use buxn_jit.Refine.Inv.{Frame-refl}
use buxn_jit.Refine.Alloc.{nothing_held}
use buxn_jit.Refine.Side.{Alone, Ready, Sides, Frame-Quiet}
use buxn_jit.Refine.Isa.{operands, in_place, growth}
use buxn_jit.Refine.Session.{Session, Performs}
use buxn_jit.Refine.Widths.{
  add-width, sub-width, mul-width, mod-width, and-width, or-width, xor-width,
}
use buxn_jit.Refine.Moves.{jit_dup-Performs, jit_swp-Performs, jit_ovr-Performs, jit_rot-Performs}
use buxn_jit.Refine.Increment.{jit_inc-Performs}
use buxn_jit.Refine.Shift.{jit_sft-Performs}
use buxn_jit.Refine.Removals.{jit_pop-Performs, jit_nip-Performs}
use buxn_jit.Refine.Arithmetic.{jit_bitwise-Performs, jit_binary-Performs, jit_compare-Performs}

module _ (m : Machine) (s0 : m.State) where
  started-Session :
      (flag_r two : Bool) (ss : List Bool) (ctx : Ctx) (l o : List ℕ)
      → Sides m s0 flag_r nothing_held ctx l o
      → Ready flag_r two ss ctx l
      → Session m s0 flag_r nothing_held ctx ctx l o
  started-Session flag_r two ss ctx l o v r = record {
    inv = v;
    quiet = Frame-Quiet m s0 ctx ctx (Frame-refl m s0 ctx);
    side = r.side;
  }

  -- For POP, NIP, SWP, ROT, DUP, OVR, INC, ADD, SUB, MUL, AND, ORA, EOR, SFT and the four
  -- comparisons, in either size and on either stack, from a context that satisfies the invariant,
  -- outside the keep mode, with no operand held, the operands ready in registers or in memory, room
  -- for the results and, for INC, nothing else in the register of its operand: the opcode fails no
  -- assertion, takes its operands off its own stack, and puts the results that the instruction set
  -- gives for them in their place. The other stack and the rest of the VM stay.
  pub dispatch-Performs :
      (op : Opcode) (next : M (Unit {0})) (flag_r two : Bool) (ctx : Ctx) (l o : List ℕ)
      → operands op two ≢ []
      → Sides m s0 flag_r nothing_held ctx l o
      → Ready flag_r two (operands op two) ctx l
      → op_flag_k ctx.current_opcode ≡ false
      → (in_place op ≡ true → Alone flag_r ctx)
      → growth op * size two + length l ≤ 256
      → Ensures (λ _. Performs m s0 op flag_r two ctx l o) (dispatch op next ctx)
  unfolding dispatch jit_add jit_sub jit_mul jit_and jit_ora jit_eor jit_equ jit_neq jit_gth jit_lth
  dispatch-Performs brk next flag_r two ctx l o h v r plain alone room = absurd (h refl)
  dispatch-Performs inc next flag_r two ctx l o h v r plain alone room =
      jit_inc-Performs m s0 flag_r two ctx l o (started-Session flag_r two _ ctx l o v r) r
        (alone refl)
  dispatch-Performs pop next flag_r two ctx l o h v r plain alone room =
      jit_pop-Performs m s0 flag_r two ctx l o (started-Session flag_r two _ ctx l o v r) plain r
  dispatch-Performs nip next flag_r two ctx l o h v r plain alone room =
      jit_nip-Performs m s0 flag_r two ctx l o (started-Session flag_r two _ ctx l o v r) plain r
  dispatch-Performs swp next flag_r two ctx l o h v r plain alone room =
      jit_swp-Performs m s0 flag_r two ctx l o (started-Session flag_r two _ ctx l o v r) r
  dispatch-Performs rot next flag_r two ctx l o h v r plain alone room =
      jit_rot-Performs m s0 flag_r two ctx l o (started-Session flag_r two _ ctx l o v r) r
  dispatch-Performs dup next flag_r two ctx l o h v r plain alone room =
      jit_dup-Performs m s0 flag_r two ctx l o (started-Session flag_r two _ ctx l o v r) r
        (omega arith)
  dispatch-Performs ovr next flag_r two ctx l o h v r plain alone room =
      jit_ovr-Performs m s0 flag_r two ctx l o (started-Session flag_r two _ ctx l o v r) r
        (omega arith)
  dispatch-Performs equ next flag_r two ctx l o h v r plain alone room =
      jit_compare-Performs m s0 flag_r two ctx l o (started-Session flag_r two _ ctx l o v r) r equ
        sub_z equal refl refl (λ b a. refl)
  dispatch-Performs neq next flag_r two ctx l o h v r plain alone room =
      jit_compare-Performs m s0 flag_r two ctx l o (started-Session flag_r two _ ctx l o v r) r neq
        sub_z not_equal refl refl (λ b a. refl)
  dispatch-Performs gth next flag_r two ctx l o h v r plain alone room =
      jit_compare-Performs m s0 flag_r two ctx l o (started-Session flag_r two _ ctx l o v r) r gth
        sub_greater greater refl refl (λ b a. refl)
  dispatch-Performs lth next flag_r two ctx l o h v r plain alone room =
      jit_compare-Performs m s0 flag_r two ctx l o (started-Session flag_r two _ ctx l o v r) r lth
        sub_less less refl refl (λ b a. refl)
  dispatch-Performs jmp next flag_r two ctx l o h v r plain alone room = absurd (h refl)
  dispatch-Performs jcn next flag_r two ctx l o h v r plain alone room = absurd (h refl)
  dispatch-Performs jsr next flag_r two ctx l o h v r plain alone room = absurd (h refl)
  dispatch-Performs sth next flag_r two ctx l o h v r plain alone room = absurd (h refl)
  dispatch-Performs ldz next flag_r two ctx l o h v r plain alone room = absurd (h refl)
  dispatch-Performs stz next flag_r two ctx l o h v r plain alone room = absurd (h refl)
  dispatch-Performs ldr next flag_r two ctx l o h v r plain alone room = absurd (h refl)
  dispatch-Performs str next flag_r two ctx l o h v r plain alone room = absurd (h refl)
  dispatch-Performs lda next flag_r two ctx l o h v r plain alone room = absurd (h refl)
  dispatch-Performs sta next flag_r two ctx l o h v r plain alone room = absurd (h refl)
  dispatch-Performs dei next flag_r two ctx l o h v r plain alone room = absurd (h refl)
  dispatch-Performs deo next flag_r two ctx l o h v r plain alone room = absurd (h refl)
  dispatch-Performs add next flag_r two ctx l o h v r plain alone room =
      jit_binary-Performs m s0 flag_r two ctx l o (started-Session flag_r two _ ctx l o v r) r add
        Lir.add fold_add (λ a b. (a + b) % width two) refl (λ b a. refl) (add-width two)
        (λ b a. mod-width two _)
  dispatch-Performs sub next flag_r two ctx l o h v r plain alone room =
      jit_binary-Performs m s0 flag_r two ctx l o (started-Session flag_r two _ ctx l o v r) r sub
        Lir.sub fold_sub (λ a b. (a + width two - b) % width two) refl (λ b a. refl) (sub-width two)
        (λ b a. mod-width two _)
  dispatch-Performs mul next flag_r two ctx l o h v r plain alone room =
      jit_binary-Performs m s0 flag_r two ctx l o (started-Session flag_r two _ ctx l o v r) r mul
        Lir.mul fold_mul (λ a b. a * b % width two) refl (λ b a. refl) (mul-width two)
        (λ b a. mod-width two _)
  dispatch-Performs div next flag_r two ctx l o h v r plain alone room = absurd (h refl)
  dispatch-Performs and next flag_r two ctx l o h v r plain alone room =
      jit_bitwise-Performs m s0 flag_r two ctx l o (started-Session flag_r two _ ctx l o v r) r and
        Lir.and bit_and refl (λ b a. refl) (λ b a hb ha. and-width two b a hb ha)
  dispatch-Performs ora next flag_r two ctx l o h v r plain alone room =
      jit_bitwise-Performs m s0 flag_r two ctx l o (started-Session flag_r two _ ctx l o v r) r ora
        Lir.or bit_or refl (λ b a. refl) (λ b a hb ha. or-width two b a hb ha)
  dispatch-Performs eor next flag_r two ctx l o h v r plain alone room =
      jit_bitwise-Performs m s0 flag_r two ctx l o (started-Session flag_r two _ ctx l o v r) r eor
        Lir.xor bit_xor refl (λ b a. refl) (λ b a hb ha. xor-width two b a hb ha)
  dispatch-Performs sft next flag_r two ctx l o h v r plain alone room =
      jit_sft-Performs m s0 flag_r two ctx l o (started-Session flag_r two _ ctx l o v r) r
  dispatch-Performs jci next flag_r two ctx l o h v r plain alone room = absurd (h refl)
  dispatch-Performs jmi next flag_r two ctx l o h v r plain alone room = absurd (h refl)
  dispatch-Performs jsi next flag_r two ctx l o h v r plain alone room = absurd (h refl)
  dispatch-Performs lit next flag_r two ctx l o h v r plain alone room = absurd (h refl)
