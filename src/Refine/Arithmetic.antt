-- ===== src/Refine/Arithmetic.antt =====
-- ADD, SUB, MUL, AND, ORA, EOR and the comparisons against the instruction set.
use buxn_jit.Prelude.{
  ℕ, ◌^◌, ◌<◌, ◌≤◌, ◌≡◌, refl, ap, ◌∙◌, Bool, true, false, some, List, [], ◌∷◌, arith, length,
}
use buxn_jit.Lir.{Op2, Op2u, Cond, Instr, reg, imm, op2, op2u, op_flags, and}
use buxn_jit.Ctx.{Operand, Ctx, M, ◌>>=◌}
use buxn_jit.Cache.Spill.{alloc_reg}
use buxn_jit.Regs.{op_flag_2}
use buxn_jit.Micro.Stack.{width, size, push_operand, pop_operand}
use buxn_jit.Micro.Memory.{addr_mask}
use buxn_jit.Opcodes.Arith.{jit_binary, jit_bitwise, jit_compare}
use buxn_jit.Opcodes.Control.{Opcode}
use buxn_jit.Machine.{Machine, exec, binary, sets, verdict}
use buxn_jit.Refine.Shape.{Shaped-trans, Shaped-caches}
use buxn_jit.Refine.Ensures.{Ensures, Ensures-mono}
use buxn_jit.Refine.Item.{at}
use buxn_jit.Refine.Alloc.{hold, nothing_held}
use buxn_jit.Refine.Side.{Ready}
use buxn_jit.Refine.Compute.{Wrote, with_code}
use buxn_jit.Refine.Isa.{perform, operands, truth}
use buxn_jit.Refine.Session.{Session, own_bound, Own-Kept, PickedTwo, pop_two, Performs}
use buxn_jit.Refine.Draw.{spare, spare_lem, Drawn, draw_step, compute_last}
use buxn_jit.Refine.Moves.{items-one, items-two, length-item_two}

truth-lt : (b : Bool) → truth b < 2 ^ 8
truth-lt true = omega arith
truth-lt false = omega arith

byte-le : (two : Bool) → size false ≤ size two
byte-le true = omega arith
byte-le false = omega arith

module _ (m : Machine) (s0 : m.State) (flag_r two : Bool) (ctx : Ctx) (l o : List ℕ)
    (start : Session m s0 flag_r nothing_held ctx ctx l o)
    (ready : Ready flag_r two (two ∷ two ∷ []) ctx l) where
  open m use {State, reg_of, cell}

  bound : length l ≤ 256
  bound = own_bound m s0 flag_r nothing_held ctx ctx l o start

  -- The two operands in their registers, and a register for the result
  record Poised (b a : Operand) (ctx1 : Ctx) (new : ℕ) (ctx2 : Ctx) : Type 0 where
    two_popped : PickedTwo m s0 flag_r two [] ctx l o b a ctx1
    drawn :
        Drawn m s0 flag_r (hold (hold nothing_held b.reg) a.reg) ctx ctx1 two_popped.rest o new ctx2
    at_b : reg_of (at m s0 ctx2) b.reg ≡ two_popped.vb
    at_a : reg_of (at m s0 ctx2) a.reg ≡ two_popped.va
    mode : op_flag_2 ctx2.current_opcode ≡ two

  -- A result computed and pushed in the place of two operands
  computed-Performs :
      (op : Opcode) (short : Bool) (b a : Operand) (ctx1 : Ctx) (new : ℕ) (ctx2 : Ctx) (v : ℕ)
      (code : List Instr) (c : Operand)
      → (p : Poised b a ctx1 new ctx2) → operands op two ≡ two ∷ two ∷ []
      → perform op two (p.two_popped.vb ∷ p.two_popped.va ∷ []) ≡ some (short, v ∷ [])
      → Wrote m s0 new (at m s0 ctx2) (at m s0 (with_code m s0 code ctx2))
      → reg_of (at m s0 (with_code m s0 code ctx2)) new ≡ v
      → v < width short
      → c.is_short ≡ short
      → c.reg ≡ new
      → size short ≤ size two
      → Ensures
          (λ _. Performs m s0 op flag_r two ctx l o)
          (push_operand c (with_code m s0 code ctx2))
  computed-Performs op short b a ctx1 new ctx2 v code c p shape spec k value fits is_short at_new
        small =
      let t = p.two_popped in
      Ensures-mono _ _ (push_operand c (with_code m s0 code ctx2))
        (compute_last m s0 flag_r short (hold (hold nothing_held b.reg) a.reg) ctx ctx1 ctx2 t.rest
          o new v code c p.drawn k value fits is_short at_new
          (omega (arith, bound, length-item_two two t.vb t.va t.rest t.item)))
        λ _ ctx3 q. record {
          values = t.vb ∷ t.va ∷ [];
          short = short;
          results = v ∷ [];
          rest = t.rest;
          held = hold (hold (hold nothing_held b.reg) a.reg) new;
          bounded = rw shape (t.own_b.fits, (t.own_a.fits, tt));
          before = rw shape (t.item ∙ items-two two t.vb t.va t.rest);
          spec = spec;
          inv = rw (items-one short v t.rest) at q.session.inv;
          quiet = q.session.quiet;
          shape = Shaped-trans flag_r short ctx ctx1 ctx3 (t.shape short) (
              Shaped-trans flag_r short ctx1 ctx2 ctx3 (p.drawn.shape short) (
                Shaped-trans flag_r short ctx2 (with_code m s0 code ctx2) ctx3
                  (Shaped-caches flag_r short ctx2 (with_code m s0 code ctx2) refl refl) q.shape));
        }

  Poised-step :
      {B : Type 0} (k : Operand → Operand → ℕ → M B) (Q : B → Ctx → Type 0)
      → ((b a : Operand) (ctx1 : Ctx) (new : ℕ) (ctx2 : Ctx)
          → Poised b a ctx1 new ctx2
          → Ensures Q (k b a new ctx2))
      → Ensures Q ((pop_operand >>= λ b. pop_operand >>= λ a. alloc_reg >>= k b a) ctx)
  Poised-step k Q next =
      pop_two m s0 flag_r two [] ctx l o (λ b a. alloc_reg >>= k b a) Q start ready
        λ b a ctx1 p.
          let (small, free) = spare_lem b.reg a.reg in
          draw_step m s0 flag_r _ ctx ctx1 p.rest o (spare b.reg a.reg) (k b a) Q p.session small
            free
            λ new ctx2 d. next b a ctx1 new ctx2 (record {
              two_popped = p;
              drawn = d;
              at_b = (Own-Kept m s0 {ctx' = ctx2} d.kept p.own_b).value;
              at_a = (Own-Kept m s0 {ctx' = ctx2} d.kept p.own_a).value;
              mode = ap op_flag_2 d.session.quiet.mode.opcode ∙ ready.mode;
            })

  -- AND, ORA and EOR: the result of the operation on the registers is the result.
  pub jit_bitwise-Performs :
      (op : Opcode) (call : Op2) (fold : ℕ → ℕ → ℕ)
      → operands op two ≡ two ∷ two ∷ []
      → ((b a : ℕ) → perform op two (b ∷ a ∷ []) ≡ some (two, binary call a b ∷ []))
      → ((b a : ℕ) → b < width two → a < width two → binary call a b < width two)
      → Ensures (λ _. Performs m s0 op flag_r two ctx l o) (jit_bitwise call fold ctx)
  unfolding jit_bitwise exec
  jit_bitwise-Performs op call fold shape spec fits = Poised-step _ _ λ b a ctx1 new ctx2 p.
      let t = p.two_popped in
      computed-Performs op two b a ctx1 new ctx2 (binary call t.va t.vb)
        (op2 call new (reg a.reg) (reg b.reg) ∷ ctx2.code) _ p shape (spec t.vb t.va)
        (record {
          regs = λ x ne _. simp m.reg_op2 (ground arith);
          cells = λ f j. m.cell_op2 _ _ _ _ _ _ _;
        })
        (simp m.reg_op2 (rw (p.at_a, p.at_b) (ground arith)))
        (fits t.vb t.va t.own_b.fits t.own_a.fits) t.own_b.is_short refl (omega arith)

  -- ADD, SUB and MUL: the masked result of the operation on the registers is the result.
  pub jit_binary-Performs :
      (op : Opcode) (call : Op2) (fold f : ℕ → ℕ → ℕ)
      → operands op two ≡ two ∷ two ∷ []
      → ((b a : ℕ) → perform op two (b ∷ a ∷ []) ≡ some (two, f a b ∷ []))
      → ((b a : ℕ)
          → b < width two
          → a < width two
          → binary and (binary call a b) (addr_mask two) ≡ f a b)
      → ((b a : ℕ) → f a b < width two)
      → Ensures (λ _. Performs m s0 op flag_r two ctx l o) (jit_binary call fold ctx)
  unfolding jit_binary exec
  jit_binary-Performs op call fold f shape spec value fits = Poised-step _ _ λ b a ctx1 new ctx2 p.
      let t = p.two_popped in
      computed-Performs op two b a ctx1 new ctx2 (f t.va t.vb)
        (op2 and new (reg new) (imm (addr_mask (op_flag_2 ctx2.current_opcode)))
          ∷ op2 call new (reg a.reg) (reg b.reg)
          ∷ ctx2.code)
        _ p shape (spec t.vb t.va)
        (record {
          regs = λ x ne _. simp m.reg_op2 (ground arith);
          cells = λ f j. m.cell_op2 _ _ _ _ _ _ _ ∙ m.cell_op2 _ _ _ _ _ _ _;
        })
        (simp m.reg_op2
          (rw (p.mode, p.at_a, p.at_b) (ground (arith, value t.vb t.va t.own_b.fits t.own_a.fits))))
        (fits t.vb t.va) t.own_b.is_short refl (omega arith)

  -- EQU, NEQ, GTH and LTH: the flag is the result, a byte.
  pub jit_compare-Performs :
      (op : Opcode) (call : Op2u) (flag : Cond)
      → operands op two ≡ two ∷ two ∷ []
      → sets call flag ≡ true
      → ((b a : ℕ) → perform op two (b ∷ a ∷ []) ≡ some (false, truth (verdict flag a b) ∷ []))
      → Ensures (λ _. Performs m s0 op flag_r two ctx l o) (jit_compare call flag ctx)
  unfolding jit_compare exec
  jit_compare-Performs op call flag shape set spec = Poised-step _ _ λ b a ctx1 new ctx2 p.
      let t = p.two_popped in
      let law = λ (x : ℕ). m.reg_flags call flag new (reg a.reg) (reg b.reg) (at m s0 ctx2) x set in
      computed-Performs op false b a ctx1 new ctx2 (truth (verdict flag t.va t.vb))
        (op_flags flag new ∷ op2u call (reg a.reg) (reg b.reg) ∷ ctx2.code) _ p shape
        (spec t.vb t.va)
        (record {
          regs = λ x ne _. law x ∙ ground arith;
          cells = λ f j. m.cell_flags _ _ _ _ _ _ _ _;
        })
        (law new ∙ rw (p.at_a, p.at_b) (ground arith)) (truth-lt (verdict flag t.va t.vb)) refl refl
        (byte-le two)
