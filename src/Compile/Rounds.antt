-- ===== src/Compile/Rounds.antt =====
-- src/jit.c: the loop of `buxn_jit_compile` closes its block, at the latest at the end of memory.
use buxn_jit.Prelude.{
  ℕ, zero, suc, ◌+◌, ◌≤◌, ◌<◌, ◌^◌, ◌≡◌, refl, sym, ◌∙◌, ap, ltb, true, false, Option, none, some,
  if◌then◌else◌, arith, Bool-cases, inl, inr,
}
use buxn_jit.Ctx.{Ctx, M, ◌>>=◌, ◌>>◌, pure}
use buxn_jit.Jit.{Jit, Entry}
use buxn_jit.Jit.Potential.{Grows, Grows-refl, Grows-trans}
use buxn_jit.Opcodes.Control.{Opcode, next_opcode}
use buxn_jit.Flow.Keeps.{Keeps, Keeps-none, bind-cases}
use buxn_jit.Flow.Steady.{Steady, steady_rules}
use buxn_jit.Flow.Micro.{load_state-Steady, save_state-Steady, emit_cmp-Steady, emit_jump-Steady}
use buxn_jit.Flow.Progress.{left}
use buxn_jit.Flow.Total.{left-le, next_opcode-Progress}
use buxn_jit.Flow.Agree.{bind_same}
use buxn_jit.Flow.Fuel.{next_opcode-fuel}
use buxn_jit.Compile.Prologue.{
  new_ctx, emit_label, c_entry, fallback_stub, block_entry, trampoline, prologue,
}
use buxn_jit.Compile.Block.{Env, block_loop, compile_within, compile_block, enough}

emit_label-Steady : Keeps Steady emit_label
emit_label-Steady = search steady_rules

trampoline-Steady : (jit_ptr reset_vector : ℕ) → Keeps Steady (trampoline jit_ptr reset_vector)
unfolding trampoline
trampoline-Steady jit_ptr reset_vector =
    search (emit_label-Steady, emit_cmp-Steady, emit_jump-Steady, steady_rules) depth 40 fits 5000

c_entry-Steady : Keeps Steady c_entry
unfolding c_entry
c_entry-Steady = search (load_state-Steady, steady_rules) depth 40 fits 5000

fallback_stub-Steady : Keeps Steady fallback_stub
unfolding fallback_stub
fallback_stub-Steady = search (emit_label-Steady, steady_rules) depth 40 fits 5000

block_entry-Steady : (entry_call : ℕ) → Keeps Steady (block_entry entry_call)
unfolding block_entry
block_entry-Steady entry_call = search (emit_label-Steady, steady_rules) depth 40 fits 5000

pub prologue-Steady : (jit_ptr reset_vector : ℕ) → Keeps Steady (prologue jit_ptr reset_vector)
unfolding prologue
prologue-Steady jit_ptr reset_vector =
    search
      (
        c_entry-Steady, fallback_stub-Steady, block_entry-Steady, trampoline-Steady,
        save_state-Steady, steady_rules,
      )
      depth 40 fits 5000

-- The rounds that the loop still makes
rounds : Ctx → ℕ
rounds ctx = if ctx.finalized then 1 else left ctx.pc + 2

abbrev fail : M (Unit {0})
fail ctx = none

module _ (decode : ℕ → Opcode) where
  block_loop-closed :
      (bail : M (Unit {0})) (depth fuel : ℕ) (ctx : Ctx)
      → ctx.finalized ≡ true
      → block_loop decode bail depth (suc fuel) ctx ≡ some (tt, ctx)
  unfolding block_loop
  block_loop-closed bail depth fuel ctx e = rw e refl

  block_loop-open :
      (bail : M (Unit {0})) (depth fuel : ℕ) (ctx : Ctx)
      → ctx.finalized ≡ false
      → block_loop decode bail depth (suc fuel) ctx
        ≡ (next_opcode decode bail depth >> block_loop decode bail depth fuel) ctx
  unfolding block_loop
  block_loop-open bail depth fuel ctx e = rw e refl

  -- After a round there is less to do.
  record After (ctx c : Ctx) : Type 0 where
    short : c.pc < 2 ^ 16
    left_le : left c.pc ≤ left ctx.pc
    fewer : rounds c < left ctx.pc + 2

  after_lem :
      (depth : ℕ) (ctx c : Ctx) (a : Unit {0})
      → ctx.pc < 2 ^ 16
      → next_opcode decode fail depth ctx ≡ some (a, c)
      → After ctx c
  unfolding rounds
  after_lem depth ctx c a short e =
      let p = (next_opcode-Progress decode fail Keeps-none depth).at ctx a c e in
      elim (Bool-cases (ltb ctx.pc 256)) [
        | inl below ↦
            let low : ctx.pc < 256 = ground arith in
            let closed = p.final low in
            record {
              short = p.short short;
              left_le = rw (p.same low) (omega arith);
              fewer = rw closed (omega arith);
            }
        | inr above ↦
            let closer = p.closer (ground arith) short in
            record {
              short = p.short short;
              left_le = omega (arith, closer);
              fewer = ground (arith, closer);
            }
      ]

  loop-fuel :
      (bail bail' : M (Unit {0})) (depth depth' fuel fuel' : ℕ) (ctx : Ctx)
      → ctx.pc < 2 ^ 16
      → left ctx.pc < depth
      → left ctx.pc < depth'
      → rounds ctx ≤ fuel
      → rounds ctx ≤ fuel'
      → block_loop decode bail depth fuel ctx ≡ block_loop decode bail' depth' fuel' ctx
  unfolding rounds
  loop-fuel bail bail' depth depth' zero fuel' ctx short d d' r r' = absurd (ground arith)
  loop-fuel bail bail' depth depth' (suc fuel) zero ctx short d d' r r' = absurd (ground arith)
  loop-fuel bail bail' depth depth' (suc fuel) (suc fuel') ctx short d d' r r' =
      elim (Bool-cases ctx.finalized) [
        | inl closed ↦
            block_loop-closed bail depth fuel ctx closed
            ∙ sym (block_loop-closed bail' depth' fuel' ctx closed)
        | inr unclosed ↦
            let next = next_opcode decode fail depth in
            let loop = block_loop decode bail depth fuel in
            let loop' = block_loop decode bail' depth' fuel' in
            block_loop-open bail depth fuel ctx unclosed
            ∙ (ap (λ t. ◌>>=◌ (λ c. t) (λ _. loop) ctx)
                  (next_opcode-fuel decode bail fail depth depth ctx short d d)
                ∙ (bind_same (next ctx) (λ _. loop) (λ _. loop')
                      (λ a c e.
                        let w = after_lem depth ctx c a short e in
                        let le = w.left_le in
                        let fewer = w.fewer in
                        loop-fuel bail bail' depth depth' fuel fuel' c (w.short) (omega (arith, le))
                          (omega (arith, le)) (ground (arith, fewer)) (ground (arith, fewer)))
                    ∙ (ap (λ t. ◌>>=◌ (λ c. t) (λ _. loop') ctx)
                          (next_opcode-fuel decode fail bail' depth depth' ctx short d d')
                        ∙ sym (block_loop-open bail' depth' fuel' ctx unclosed))))
      ]

  -- What the loop leaves
  record Closed (ctx ctx' : Ctx) : Type 0 where
    pub final : ctx'.finalized ≡ true
    pub jit : Grows ctx.jit ctx'.jit

  block_loop-Closed : (depth fuel : ℕ) → Keeps Closed (block_loop decode fail depth fuel)
  unfolding block_loop
  block_loop-Closed depth zero = Keeps-none
  block_loop-Closed depth (suc fuel) = record {
    at = λ ctx a ctx' e. elim (Bool-cases ctx.finalized) [
      | inl closed ↦
          let same = stop ctx ctx' a (sym (block_loop-closed fail depth fuel ctx closed) ∙ e) in
          rw same (record { final = rw⁻¹ same closed; jit = Grows-refl ctx'.jit })
      | inr unclosed ↦
          let (b, c, first, rest) =
            bind-cases (next_opcode decode fail depth ctx) (λ _. block_loop decode fail depth fuel)
              a ctx' (sym (block_loop-open fail depth fuel ctx unclosed) ∙ e) in
          let p = (next_opcode-Progress decode fail Keeps-none depth).at ctx b c first in
          let q = (block_loop-Closed depth fuel).at c a ctx' rest in
          record { final = q.final; jit = Grows-trans ctx.jit c.jit ctx'.jit p.jit q.jit }
    ];
  }
    where
      stop :
          (ctx ctx' : Ctx) (a : Unit {0})
          → ◌≡◌ {A = Option (Unit {0} × Ctx)} (some (tt, ctx)) (some (a, ctx'))
          → ctx ≡ ctx'
      stop ctx ctx' a e = cc

-- From an address of sixteen bits the compilation of a block never lacks fuel, whatever the memory
-- holds: with `enough` rounds or more, and as many opcodes inside one another, the result is that
-- of `compile_block`, and what stands for a lack of fuel is never reached.
pub compile_within-fuel :
    (env : Env) (bail : M (Unit {0})) (depth fuel : ℕ) (jit : Jit) (entry : Entry)
    → entry.pc < 2 ^ 16
    → enough ≤ depth
    → enough ≤ fuel
    → compile_within env bail depth fuel (new_ctx jit env.image entry)
      ≡ compile_block env (new_ctx jit env.image entry)
unfolding compile_block compile_within rounds
compile_within-fuel env bail depth fuel jit entry short d f =
    let start = new_ctx jit env.image entry in
    let p = prologue env.jit_ptr env.reset_vector in
    bind_same (p start) (λ labels. block_loop env.decode bail depth fuel >> pure labels)
      (λ labels. block_loop env.decode fail enough enough >> pure labels)
      (λ labels c e.
        let same = ((prologue-Steady env.jit_ptr env.reset_vector).at start labels c e).pc in
        ap (λ t. ◌>>=◌ (λ c'. t) (λ _. pure labels) c)
          (loop-fuel env.decode bail fail depth enough fuel enough c (rw same short)
            (omega (arith, left-le c.pc)) (omega (arith, left-le c.pc)) (rounds_le c fuel f)
            (rounds_le c enough (omega arith))))
  where
    rounds_le : (c : Ctx) (n : ℕ) → enough ≤ n → rounds c ≤ n
    rounds_le c n h = ground (arith, left-le c.pc)

-- If the compilation of a block returns, the block is closed, and the JIT has only been asked for
-- blocks and links.
pub compile_block-Grows :
    (env : Env) (jit : Jit) (entry : Entry) (labels : ℕ × ℕ) (ctx : Ctx)
    → compile_block env (new_ctx jit env.image entry) ≡ some (labels, ctx)
    → (ctx.finalized ≡ true) × Grows jit ctx.jit
unfolding compile_block compile_within
compile_block-Grows env jit entry labels ctx e =
    let start = new_ctx jit env.image entry in
    let p = prologue env.jit_ptr env.reset_vector in
    let loop = block_loop env.decode fail enough enough in
    let (l, c, first, rest) = bind-cases (p start) (λ l. loop >> pure l) labels ctx e in
    let (u, d, ran, last) = bind-cases (loop c) (λ _. pure l) labels ctx rest in
    let closed = (block_loop-Closed env.decode enough enough).at c u d ran in
    let same = stop d ctx l labels last in
    rw⁻¹ same (
      closed.final,
      Grows-trans jit c.jit d.jit
          ((prologue-Steady env.jit_ptr env.reset_vector).at start l c first).jit closed.jit,
    )
  where
    stop :
        (d ctx : Ctx) (l labels : ℕ × ℕ)
        → ◌≡◌ {A = Option ((ℕ × ℕ) × Ctx)} (some (l, d)) (some (labels, ctx))
        → d ≡ ctx
    stop d ctx l labels e = cc
