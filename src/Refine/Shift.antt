-- ===== src/Refine/Shift.antt =====
-- SFT against the instruction set: it takes a byte, and an item of its own size below it.
use buxn_jit.Prelude.{
  ℕ, ◌-◌, ◌*◌, ◌/◌, ◌%◌, ◌^◌, ◌<◌, ◌≡◌, ◌≢◌, refl, ap, ◌∙◌, Bool, true, false, List, [], ◌∷◌, ◌++◌,
  arith, length,
}
use buxn_jit.Lir.{reg, imm, op2, lshr, shl, and, r_op_min, r_tmp}
use buxn_jit.Ctx.{Ctx}
use buxn_jit.Regs.{op_flag_2}
use buxn_jit.Micro.Stack.{width, push_operand}
use buxn_jit.Micro.Memory.{addr_mask}
use buxn_jit.Opcodes.Arith.{jit_sft}
use buxn_jit.Opcodes.Control.{sft}
use buxn_jit.Machine.{Machine, exec, binary}
use buxn_jit.Refine.Shape.{Shaped-trans, Shaped-caches}
use buxn_jit.Refine.Ensures.{Ensures, Ensures-mono}
use buxn_jit.Refine.Push.{item_bytes}
use buxn_jit.Refine.Item.{at}
use buxn_jit.Refine.Alloc.{hold, nothing_held}
use buxn_jit.Refine.Side.{Ready}
use buxn_jit.Refine.Compute.{with_code}
use buxn_jit.Refine.Isa.{items_of}
use buxn_jit.Refine.Session.{
  Session, Own, Own-Kept, Own-hold, own_bound, length-on, pop_ex_step, pop_step, Performs,
}
use buxn_jit.Refine.Draw.{spare, spare_lem, draw_step, compute_last}
use buxn_jit.Refine.Widths.{sft-width, mod-width}
use buxn_jit.Refine.Moves.{items-one}

items-byte :
    (two : Bool) (b a : ℕ) (l : List ℕ)
    → item_bytes false b ++ (item_bytes two a ++ l) ≡ items_of (false ∷ two ∷ []) (b ∷ a ∷ []) ++ l
items-byte true b a l = refl
items-byte false b a l = refl

apart : (held : ℕ → ℕ) (new x : ℕ) → held (new - r_op_min) ≡ 0 → held (x - r_op_min) ≢ 0 → x ≢ new
apart held new x e used same = used (ap (λ y. held (y - r_op_min)) same ∙ e)

module _ (m : Machine) (s0 : m.State) (flag_r two : Bool) (ctx : Ctx) (l o : List ℕ)
    (start : Session m s0 flag_r nothing_held ctx ctx l o) where
  open m use {State, step, reg_of, reg_op2}

  -- The five calls, one after the other
  shift_value :
      (s : State) (a b new mask : ℕ)
      → r_tmp < a
      → r_tmp < b
      → r_tmp < new
      → b ≢ new
      → let s1 = step (op2 and r_tmp (reg b) (imm 0x0f)) s in
        let s2 = step (op2 lshr new (reg a) (reg r_tmp)) s1 in
        let s3 = step (op2 lshr r_tmp (reg b) (imm 4)) s2 in
        let s4 = step (op2 shl new (reg new) (reg r_tmp)) s3 in
        reg_of (step (op2 and new (reg new) (imm mask)) s4) new
        ≡ binary and
            (binary shl
              (binary lshr (reg_of s a) (binary and (reg_of s b) 0x0f))
              (binary lshr (reg_of s b) 4))
            mask
  shift_value s a b new mask ha hb hn ne =
      let s1 = step (op2 and r_tmp (reg b) (imm 0x0f)) s in
      let s2 = step (op2 lshr new (reg a) (reg r_tmp)) s1 in
      let s3 = step (op2 lshr r_tmp (reg b) (imm 4)) s2 in
      let s4 = step (op2 shl new (reg new) (reg r_tmp)) s3 in
      let low : reg_of s1 r_tmp ≡ binary and (reg_of s b) 0x0f =
        reg_op2 and r_tmp (reg b) (imm 0x0f) s r_tmp in
      let a1 : reg_of s1 a ≡ reg_of s a = reg_op2 and r_tmp (reg b) (imm 0x0f) s a ∙ ground arith in
      let new2 : reg_of s2 new ≡ binary lshr (reg_of s a) (binary and (reg_of s b) 0x0f) =
        reg_op2 lshr new (reg a) (reg r_tmp) s1 new ∙ rw (a1, low) (ground arith) in
      let b2 : reg_of s2 b ≡ reg_of s b = simp reg_op2 (ground arith) in
      let high : reg_of s3 r_tmp ≡ binary lshr (reg_of s b) 4 =
        reg_op2 lshr r_tmp (reg b) (imm 4) s2 r_tmp ∙ rw b2 refl in
      let new3 : reg_of s3 new ≡ reg_of s2 new =
        reg_op2 lshr r_tmp (reg b) (imm 4) s2 new ∙ ground arith in
      let new4 : reg_of s4 new ≡ binary shl (reg_of s2 new) (reg_of s3 r_tmp) =
        reg_op2 shl new (reg new) (reg r_tmp) s3 new ∙ rw new3 (ground arith) in
      reg_op2 and new (reg new) (imm mask) s4 new ∙ rw (new4, new2, high) (ground arith)

  pub jit_sft-Performs :
      Ready flag_r two (false ∷ two ∷ []) ctx l
      → Ensures (λ _. Performs m s0 sft flag_r two ctx l o) (jit_sft ctx)
  unfolding jit_sft exec
  jit_sft-Performs ready = rw start.side (
      pop_ex_step m s0 flag_r two false nothing_held (two ∷ []) ctx ctx l o _ _ start ready
        λ b ctx1 p.
          pop_step m s0 flag_r two _ [] ctx ctx1 p.rest o _ _ p.session p.ready λ a ctx2 p'.
            let held = hold (hold nothing_held b.reg) a.reg in
            let (small, free) = spare_lem b.reg a.reg in
            draw_step m s0 flag_r held ctx ctx2 p'.rest o (spare b.reg a.reg) _ _ p'.session small
              free
              λ new ctx3 d.
                let own_b : Own m s0 false held ctx3 b p.v =
                  Own-Kept m s0 d.kept
                    (Own-hold m s0 a.reg (Own-Kept m s0 {ctx' = ctx2} p'.kept p.own)) in
                let own_a : Own m s0 two held ctx3 a p'.v = Own-Kept m s0 d.kept p'.own in
                let v = p'.v / 2 ^ (p.v % 16) * 2 ^ (p.v / 16) % width two in
                let code =
                  op2 and new (reg new) (imm (addr_mask (op_flag_2 ctx3.current_opcode)))
                  ∷ op2 shl new (reg new) (reg r_tmp)
                  ∷ op2 lshr r_tmp (reg b.reg) (imm 4)
                  ∷ op2 lshr new (reg a.reg) (reg r_tmp)
                  ∷ op2 and r_tmp (reg b.reg) (imm 0x0f)
                  ∷ ctx3.code in
                let mode = ap op_flag_2 d.session.quiet.mode.opcode ∙ ready.mode in
                let apart_b = apart held new b.reg d.unheld own_b.used in
                Ensures-mono _ _ (push_operand _ (with_code m s0 code ctx3))
                  (compute_last m s0 flag_r two held ctx ctx2 ctx3 p'.rest o new v code _ d
                    (record {
                      regs = λ y ne ne'. simp m.reg_op2 (ground arith);
                      cells = λ f j. simp m.cell_op2 refl;
                    })
                    (shift_value (at m s0 ctx3) a.reg b.reg new
                        (addr_mask (op_flag_2 ctx3.current_opcode)) (omega (arith, own_a.lo))
                        (omega (arith, own_b.lo)) (omega (arith, d.lo)) apart_b
                      ∙ rw (mode, own_a.value, own_b.value) (sft-width two p.v p'.v own_b.fits))
                    (mod-width two _) own_a.is_short refl
                    (omega (
                      arith,
                      own_bound m s0 flag_r nothing_held ctx ctx l o start,
                      ap length p.item,
                      length-on false p.v p.rest,
                      ap length p'.item,
                      length-on two p'.v p'.rest,
                    )))
                  λ _ ctx4 t. record {
                    values = p.v ∷ p'.v ∷ [];
                    short = two;
                    results = v ∷ [];
                    rest = p'.rest;
                    held = hold held new;
                    bounded = (p.own.fits, (p'.own.fits, tt));
                    before =
                        p.item
                        ∙ ap (λ t. item_bytes false p.v ++ t) p'.item
                        ∙ items-byte two p.v p'.v p'.rest;
                    spec = refl;
                    inv = rw (items-one two v p'.rest) at t.session.inv;
                    quiet = t.session.quiet;
                    shape = Shaped-trans flag_r two ctx ctx1 ctx4 (p.shape two) (
                        Shaped-trans flag_r two ctx1 ctx2 ctx4 (p'.shape two) (
                          Shaped-trans flag_r two ctx2 ctx3 ctx4 (d.shape two) (
                            Shaped-trans flag_r two ctx3 (with_code m s0 code ctx3) ctx4
                              (Shaped-caches flag_r two ctx3 (with_code m s0 code ctx3) refl refl)
                              t.shape)));
                  })
