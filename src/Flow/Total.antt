-- ===== src/Flow/Total.antt =====
-- src/jit.c: `buxn_jit_next_opcode` moves on in the block or closes it, and compiles only so many
-- opcodes inside one another as there are addresses left.
use buxn_jit.Prelude.{
  ℕ, zero, suc, ◌+◌, ◌≤◌, ◌<◌, ◌^◌, ◌%◌, ◌≡◌, refl, sym, ◌∙◌, ltb, true, false, some, arith,
  Bool-cases, inl, inr,
}
use buxn_jit.Lir.{imm, ret}
use buxn_jit.Jit.Potential.{Grows, Grows-trans}
use buxn_jit.Ctx.{Ctx, M, ◌>>=◌, ◌>>◌, get, emit}
use buxn_jit.Cache.Sweep.{clear_stack_caches}
use buxn_jit.Jump.{finalize}
use buxn_jit.Opcodes.Control.{Opcode, dispatch, begin_opcode, leave_to_interpreter, next_opcode}
use buxn_jit.Flow.Keeps.{Keeps, Keeps-mono, bind-cases}
use buxn_jit.Flow.Steady.{Steady, steady_rules}
use buxn_jit.Flow.Sweeps.{clear_stack_caches-Steady}
use buxn_jit.Flow.Progress.{left, Within, Stays}
use buxn_jit.Flow.Forward.{Reach}
use buxn_jit.Flow.Dispatch.{begin_opcode-Advances, dispatch-Leaves}

-- Where an opcode outside the zero page ends is closer to the end of memory.
pub reach_lem : (p : ℕ) → 256 ≤ p → p < 2 ^ 16 → Reach (left p) ((p + 1) % 2 ^ 16)
unfolding left
reach_lem p low high = record {
  none_read = record { short = omega arith; room = ground arith };
  byte_read = record { short = omega arith; room = ground arith };
  short_read = record { short = omega arith; room = ground arith };
}

pub left-le : (p : ℕ) → left p ≤ 2 ^ 16
unfolding left
left-le p = ground arith

Reach-any : (q : ℕ) → q < 2 ^ 16 → Reach (2 ^ 16 + 1) q
Reach-any q h = record {
  none_read = record { short = h; room = omega (arith, left-le q) };
  byte_read = record { short = omega arith; room = omega (arith, left-le ((q + 1) % 2 ^ 16)) };
  short_read = record { short = omega arith; room = omega (arith, left-le ((q + 2) % 2 ^ 16)) };
}

-- `buxn_jit_next_opcode` after it has returned
pub record Progress (ctx ctx' : Ctx) : Type 0 where
  pub jit : Grows ctx.jit ctx'.jit
  pub short : ctx.pc < 2 ^ 16 → ctx'.pc < 2 ^ 16
  pub same : ctx.pc < 256 → ctx'.pc ≡ ctx.pc
  pub final : ctx.pc < 256 → ctx'.finalized ≡ true
  pub closer : 256 ≤ ctx.pc → ctx.pc < 2 ^ 16 → left ctx'.pc < left ctx.pc

Progress-Stays : (n : ℕ) (f : M (Unit {0})) → Keeps Progress f → Keeps (Stays n) f
Progress-Stays n f = Keeps-mono f λ a b s. record {
  within = λ w. elim (Bool-cases (ltb a.pc 256)) [
    | inl low ↦ rw (s.same (ground arith)) w
    | inr high ↦ record {
      short = s.short w.short;
      room =
          let less = s.closer (ground arith) w.short in
          let room = w.room in omega (arith, less, room);
    }
  ];
  jit = s.jit;
}

leave_to_interpreter-Steady : Keeps Steady leave_to_interpreter
unfolding leave_to_interpreter
leave_to_interpreter-Steady = search (clear_stack_caches-Steady, steady_rules) depth 40 fits 5000

finalized_last :
    (ctx ctx' : Ctx) (a : Unit {0}) (f : M (Unit {0}))
    → (f >> finalize) ctx ≡ some (a, ctx')
    → ctx'.finalized ≡ true
finalized_last ctx ctx' a f e =
    let (b, c, first, rest) = bind-cases (f ctx) (λ _. finalize) a ctx' e in
    rw⁻¹ (made c ctx' a rest) refl
  where
    made :
        (c ctx' : Ctx) (a : Unit {0})
        → finalize c ≡ some (a, ctx')
        → record c { finalized = true } ≡ ctx'
    made c ctx' a e = cc

leave_to_interpreter-finalized :
    (ctx ctx' : Ctx) (a : Unit {0})
    → leave_to_interpreter ctx ≡ some (a, ctx')
    → ctx'.finalized ≡ true
unfolding leave_to_interpreter
leave_to_interpreter-finalized ctx ctx' a e =
    let (b, c, first, rest) =
      bind-cases (clear_stack_caches ctx) (λ _. get >>= λ d. emit (ret (imm d.pc)) >> finalize) a
        ctx' e in
    finalized_last c ctx' a (emit (ret (imm c.pc))) rest

module _ (decode : ℕ → Opcode) where
  -- What is compiled outside the zero page
  abbrev pub one_opcode : M (Unit {0}) → M (Unit {0})
  one_opcode next = do begin_opcode; ctx ← get; dispatch (decode ctx.current_opcode) next

  -- What an opcode outside the zero page does, if what it compiles inside it makes progress
  one_opcode-Leaves :
      (n : ℕ) (ctx ctx' : Ctx) (a : Unit {0}) (next : M (Unit {0}))
      → Keeps Progress next
      → Reach n ((ctx.pc + 1) % 2 ^ 16)
      → one_opcode next ctx ≡ some (a, ctx')
      → Within n ctx'.pc × Grows ctx.jit ctx'.jit
  one_opcode-Leaves n ctx ctx' a next ih r e =
      let (b, c, first, rest) =
        bind-cases (begin_opcode ctx) (λ _. get >>= λ d. dispatch (decode d.current_opcode) next) a
          ctx' e in
      let begun = begin_opcode-Advances.at ctx b c first in
      let done =
        (dispatch-Leaves n ((ctx.pc + 1) % 2 ^ 16) r (decode c.current_opcode) next
            (Progress-Stays n next ih)).at
          c a ctx' rest in
      (done.within begun.pc, Grows-trans ctx.jit c.jit ctx'.jit begun.jit done.jit)

module _ (decode : ℕ → Opcode) (bail : M (Unit {0})) where
  pub next_opcode-low :
      (fuel : ℕ) (ctx : Ctx)
      → ctx.pc < 256
      → next_opcode decode bail (suc fuel) ctx ≡ leave_to_interpreter ctx
  unfolding next_opcode
  next_opcode-low fuel ctx h = let low : ltb ctx.pc 256 ≡ true = ground arith in rw low refl

  pub next_opcode-high :
      (fuel : ℕ) (ctx : Ctx)
      → 256 ≤ ctx.pc
      → next_opcode decode bail (suc fuel) ctx
        ≡ one_opcode decode (next_opcode decode bail fuel) ctx
  unfolding next_opcode
  next_opcode-high fuel ctx h = let high : ltb ctx.pc 256 ≡ false = ground arith in rw high refl

  pub next_opcode-Progress :
      Keeps Progress bail → (fuel : ℕ) → Keeps Progress (next_opcode decode bail fuel)
  unfolding next_opcode
  next_opcode-Progress h zero = h
  next_opcode-Progress h (suc fuel) = record {
    at = λ ctx a ctx' e. elim (Bool-cases (ltb ctx.pc 256)) [
      | inl below ↦
          let low : ctx.pc < 256 = ground arith in
          let e' = sym (next_opcode-low fuel ctx low) ∙ e in
          let s = leave_to_interpreter-Steady.at ctx a ctx' e' in
          record {
            jit = s.jit;
            short = λ b. rw (s.pc) b;
            same = λ h. s.pc;
            final = λ h. leave_to_interpreter-finalized ctx ctx' a e';
            closer = λ h. absurd (omega arith);
          }
      | inr above ↦
          let high : 256 ≤ ctx.pc = ground arith in
          let e' = sym (next_opcode-high fuel ctx high) ∙ e in
          let ih = next_opcode-Progress h fuel in
          let (w, grows) =
            one_opcode-Leaves decode (2 ^ 16 + 1) ctx ctx' a (next_opcode decode bail fuel) ih
              (Reach-any _ (omega arith)) e' in
          record {
            jit = grows;
            short = λ h. w.short;
            same = λ h. absurd (omega arith);
            final = λ h. absurd (omega arith);
            closer = λ _ b.
                (one_opcode-Leaves decode (left ctx.pc) ctx ctx' a (next_opcode decode bail fuel) ih
                  (reach_lem ctx.pc high b) e').0.room;
          }
    ];
  }
