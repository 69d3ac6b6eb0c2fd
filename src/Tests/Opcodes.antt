-- ===== src/Tests/Opcodes.antt =====
-- The theorems of the opcodes that work on one stack, at the block of Tests: ADD2 on a short in a
-- register and one in memory.
use buxn_jit.Prelude.{ℕ, refl, true, false, [], ◌∷◌, List, ap, length, arith, if◌then◌else◌, ◌==◌}
use buxn_jit.Ctx.{◌>>◌, Ctx, skip}
use buxn_jit.Regs.{op_flag_2, op_flag_k, op_flag_r}
use buxn_jit.Micro.Stack.{pop_ex}
use buxn_jit.Opcodes.Control.{Opcode, add, dup, brk, dispatch, next_opcode}
use buxn_jit.Machine.Concrete.{concrete}
use buxn_jit.Refine.Ensures.{Ensures}
use buxn_jit.Refine.Inv.{Inv}
use buxn_jit.Refine.Side.{Ready, free_from}
use buxn_jit.Refine.Ready.{Taken, pop_ex-Taken}
use buxn_jit.Refine.Session.{Performs}
use buxn_jit.Refine.Straight.{dispatch-Performs}
use buxn_jit.Opcodes.Stack.{jit_sth}
use buxn_jit.Refine.Stash.{Stashed, jit_sth-Stashed}
use buxn_jit.Refine.Run.{Plain, Others, next_opcodes, next_opcodes-InMemory}
use buxn_jit.Refine.Item.{at}
use buxn_jit.Refine.Clear.{InMemory}
use buxn_jit.Cache.Sweep.{clear_stack_caches}
use buxn_jit.Refine.Next.{Stepped, next_opcode-Stepped}
use buxn_jit.Tests.{s0, ctx0, ctx0-Inv, none_held, stack, with_opcode, with_opcode-Inv}

-- Two shorts: the first is in a register, the second one in memory.
ready : Ready false true (true ∷ true ∷ []) (with_opcode 0x38) stack
unfolding op_flag_2 op_flag_r free_from
ready = record {
  side = refl;
  mode = refl;
  shadow = refl;
  wsp_reg = refl;
  rsp_reg = refl;
  sizes = (refl, tt);
  regs = omega arith;
  there = omega arith;
}

pop_ex-Taken_example :
    Ensures
      (Taken concrete s0 false true true none_held (true ∷ []) (with_opcode 0x38) stack [])
      (pop_ex true false (with_opcode 0x38))
pop_ex-Taken_example =
    pop_ex-Taken concrete s0 false true true none_held (true ∷ []) (with_opcode 0x38) stack []
      (with_opcode-Inv 0x38) ready

dispatch-Performs_example :
    Ensures
      (λ _. Performs concrete s0 add false true (with_opcode 0x38) stack [])
      (dispatch add skip (with_opcode 0x38))
unfolding op_flag_k
dispatch-Performs_example =
    dispatch-Performs concrete s0 add skip false true (with_opcode 0x38) stack []
      (λ e. absurd (omega (arith, ap length e))) (with_opcode-Inv 0x38) ready refl (λ e ne. refl)
      (omega arith)

-- STH2 on the short in the register
jit_sth-Stashed_example :
    Ensures
      (λ _. Stashed concrete s0 false true (with_opcode 0x2f) stack [])
      (jit_sth (with_opcode 0x2f))
unfolding op_flag_2 op_flag_r free_from
jit_sth-Stashed_example =
    jit_sth-Stashed concrete s0 false true (with_opcode 0x2f) stack [] (with_opcode-Inv 0x2f)
      (record {
        side = refl;
        mode = refl;
        shadow = refl;
        wsp_reg = refl;
        rsp_reg = refl;
        sizes = (refl, tt);
        regs = omega arith;
        there = omega arith;
      })
      (omega arith)

-- The same block, about to compile the opcode at its address
abbrev before_add : Ctx
before_add = record ctx0 { image = λ i. 0x38 }

before_add-Inv : Inv concrete s0 none_held before_add stack []
before_add-Inv = record {
  anchored = record { vm = ctx0-Inv.anchored.vm; base = tt };
  wst = ctx0-Inv.wst;
  rst = ctx0-Inv.rst;
  wst_fresh = ctx0-Inv.wst_fresh;
  rst_fresh = ctx0-Inv.rst_fresh;
  counted = ctx0-Inv.counted;
  wst_bound = ctx0-Inv.wst_bound;
  rst_bound = ctx0-Inv.rst_bound;
}

abbrev decode : ℕ → Opcode
decode opcode = if opcode == 0x38 then add else brk

next_opcode-Stepped_example :
    Ensures
      (λ _. Stepped concrete s0 add false true before_add stack [])
      (next_opcode decode skip 10 before_add)
unfolding op_flag_2 op_flag_r op_flag_k
next_opcode-Stepped_example =
    next_opcode-Stepped concrete s0 decode skip 9 false true none_held before_add stack []
      (omega arith) before_add-Inv
      (record {
        is_op = λ e. absurd (omega (arith, ap length e));
        side = refl;
        mode = refl;
        plain = refl;
        sizes = (refl, tt);
        regs = omega arith;
        there = omega arith;
        alone = λ e ne. refl;
        room = omega arith;
      })

-- ADD2 and DUP2, one after the other
abbrev before_two : Ctx
before_two = record ctx0 { image = λ i. if i == 0x100 then 0x38 else 0x26 }

before_two-Inv : Inv concrete s0 none_held before_two stack []
before_two-Inv = record {
  anchored = record { vm = ctx0-Inv.anchored.vm; base = tt };
  wst = ctx0-Inv.wst;
  rst = ctx0-Inv.rst;
  wst_fresh = ctx0-Inv.wst_fresh;
  rst_fresh = ctx0-Inv.rst_fresh;
  counted = ctx0-Inv.counted;
  wst_bound = ctx0-Inv.wst_bound;
  rst_bound = ctx0-Inv.rst_bound;
}

abbrev decode_two : ℕ → Opcode
decode_two opcode = if opcode == 0x38 then add else dup

add-Plain : Plain decode_two false true add 0x38
unfolding op_flag_2 op_flag_r op_flag_k
add-Plain = record {
  decoded = refl;
  side = refl;
  mode = refl;
  plain = refl;
  is_op = λ e. absurd (omega (arith, ap length e));
  sizes = (refl, (refl, tt));
  apart = refl;
}

dup-Plain : Plain decode_two false true dup 0x26
unfolding op_flag_2 op_flag_r op_flag_k
dup-Plain = record {
  decoded = refl;
  side = refl;
  mode = refl;
  plain = refl;
  is_op = λ e. absurd (omega (arith, ap length e));
  sizes = (refl, tt);
  apart = refl;
}

abbrev sums : List ℕ
sums = 0x3d ∷ 0x1a ∷ 0x3d ∷ 0x1a ∷ 7 ∷ []

next_opcodes-InMemory_example :
    Ensures
      (λ _ ctx'.
        InMemory concrete s0 (at concrete s0 ctx') sums [] × Others concrete s0 before_two ctx')
      ((next_opcodes decode_two skip 9 (add ∷ dup ∷ []) >> clear_stack_caches) before_two)
next_opcodes-InMemory_example =
    next_opcodes-InMemory concrete s0 decode_two skip 9 false true (add ∷ dup ∷ []) none_held
      before_two stack sums [] (omega arith, add-Plain, (omega arith, dup-Plain, tt)) before_two-Inv
      (λ i h. refl) (omega arith) refl
