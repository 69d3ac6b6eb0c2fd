-- ===== src/Refine/Run.antt =====
-- A run of opcodes that work on one stack, compiled one after the other.
use buxn_jit.Prelude.{
  ℕ, zero, suc, ◌+◌, ◌*◌, ◌%◌, ◌^◌, ◌<◌, ◌≤◌, ◌≡◌, ◌≢◌, refl, sym, ap, ◌∙◌, Bool, true, false, not,
  Option, none, some, List, [], ◌∷◌, arith, length, leb, Bool-cases, Option-cases, inl, inr,
}
use buxn_jit.Lir.{Field, ws, rs, same_field}
use buxn_jit.Ctx.{Cell, Ctx, M, ◌>>◌, skip, cache_of}
use buxn_jit.Regs.{op_flag_2, op_flag_k, op_flag_r}
use buxn_jit.Cache.Sweep.{clear_stack_caches}
use buxn_jit.Micro.Stack.{size}
use buxn_jit.Opcodes.Control.{Opcode, next_opcode}
use buxn_jit.Machine.{Machine}
use buxn_jit.Refine.Shape.{Flat, Shaped}
use buxn_jit.Refine.Ensures.{Ensures, Ensures-bind, Ensures-mono}
use buxn_jit.Refine.Item.{at}
use buxn_jit.Refine.Clear.{InMemory, clear_stack_caches_lem}
use buxn_jit.Refine.Start.{started, settled_value}
use buxn_jit.Refine.Side.{w_of, r_of, Sized, Sides}
use buxn_jit.Refine.Isa.{operands, in_place, growth}
use buxn_jit.Refine.Interpret.{
  interpret, interpret_all, put_back, interpret-items, put_back-items, interpret-le,
}
use buxn_jit.Refine.Steady.{operands-few}
use buxn_jit.Refine.Next.{Fit, Stepped, next_opcode-Stepped}

-- One round of the loop of `buxn_jit_compile` for each opcode
abbrev pub next_opcodes : (ℕ → Opcode) → M (Unit {0}) → ℕ → List Opcode → M (Unit {0})
next_opcodes decode bail fuel [] = skip
next_opcodes decode bail fuel (op ∷ ops) =
    next_opcode decode bail (suc fuel) >> next_opcodes decode bail fuel ops

-- All items have one size.
abbrev pub OneSize : Bool → List Bool → Type 0
OneSize two [] = Unit {0}
OneSize two (s ∷ ss) = (s ≡ two) × OneSize two ss

-- A byte is the code of an opcode that works on one stack, of the side and the size, outside the
-- keep mode, not in place, with all its operands of that size.
pub record Plain (decode : ℕ → Opcode) (flag_r two : Bool) (op : Opcode) (byte : ℕ) : Type 0 where
  pub decoded : decode byte ≡ op
  pub side : op_flag_r byte ≡ flag_r
  pub mode : op_flag_2 byte ≡ two
  pub plain : op_flag_k byte ≡ false
  pub is_op : operands op two ≢ []
  pub sizes : OneSize two (operands op two)
  pub apart : in_place op ≡ false

-- The opcodes stand in memory from an address on, outside the zero page.
abbrev pub Program : (ℕ → Opcode) → Bool → Bool → (ℕ → ℕ) → List Opcode → ℕ → Type 0
Program decode flag_r two image [] pc = Unit {0}
Program decode flag_r two image (op ∷ ops) pc =
    (256 ≤ pc)
    × Plain decode flag_r two op (image pc)
    × Program decode flag_r two image ops ((pc + 1) % 2 ^ 16)

Flat-Sized :
    (two : Bool) (ss : List Bool) (cells : ℕ → Cell) (n : ℕ)
    → OneSize two ss
    → ((i : ℕ) → i < n → (cells i).value.is_short ≡ two)
    → Sized ss cells n
Flat-Sized two [] cells n e f = tt
Flat-Sized two (s ∷ ss) cells zero e f = tt
Flat-Sized two (s ∷ ss) cells (suc n) (e, es) f =
    (f n (omega arith) ∙ sym e, Flat-Sized two ss cells n es λ i h. f i (omega arith))

started-Shaped : (flag_r two : Bool) (ctx : Ctx) → Shaped flag_r two ctx (started ctx)
started-Shaped true two ctx = record {
  flat = λ f i h.
      ap (λ (c : Cell). c.value.is_short) (settled_value ctx.rst_cache i (omega arith))
      ∙ f i (omega arith);
  other = omega arith;
}
started-Shaped false two ctx = record {
  flat = λ f i h.
      ap (λ (c : Cell). c.value.is_short) (settled_value ctx.wst_cache i (omega arith))
      ∙ f i (omega arith);
  other = omega arith;
}

module _ (m : Machine) (s0 : m.State) where
  open m use {State, reg_of, cell}

  abbrev pub Others : Ctx → Ctx → Type 0
  Others ctx ctx' =
      (f : Field) (j : ℕ)
      → same_field ws f ≡ false
      → same_field rs f ≡ false
      → cell (at m s0 ctx') f j ≡ cell (at m s0 ctx) f j

  -- After a run
  pub record Ran (flag_r : Bool) (ctx : Ctx) (l o : List ℕ) (ctx' : Ctx) : Type 0 where
    pub held : ℕ → ℕ
    pub inv : Sides m s0 flag_r held ctx' l o
    pub others : Others ctx ctx'

  -- What holds between two opcodes of a run
  pub record Between (flag_r two : Bool) (ctx : Ctx) (l o : List ℕ) (ctx' : Ctx) : Type 0 where
    pub ran : Ran flag_r ctx l o ctx'
    pub image : ctx'.image ≡ ctx.image
    pub pc : ctx'.pc ≡ (ctx.pc + 1) % 2 ^ 16
    pub flat : Flat two (cache_of flag_r ctx')
    pub few : (cache_of (not flag_r) ctx').len ≤ 3

  Stepped-Between :
      (op : Opcode) (flag_r two : Bool) (ctx : Ctx) (l l' o : List ℕ) (ctx' : Ctx)
      → Flat two (cache_of flag_r ctx)
      → (cache_of (not flag_r) ctx).len ≤ 3
      → interpret op two l ≡ some l'
      → Stepped m s0 op flag_r two ctx l o ctx'
      → Between flag_r two ctx l' o ctx'
  Stepped-Between op flag_r two ctx l l' o ctx' flat few e s =
      let p = s.performs in
      let put : put_back two (some (p.short, p.results)) p.rest ≡ some l' =
        ap (λ r. put_back two r p.rest) (sym p.spec)
        ∙ sym (interpret-items op two p.values p.rest p.bounded)
        ∙ ap (interpret op two) (sym p.before)
        ∙ e in
      let (same, result) = put_back-items two p.short p.results p.rest l' put in
      let start = started-Shaped flag_r two ctx in
      let shape : Shaped flag_r two (started ctx) ctx' = rw same at p.shape in
      record {
        ran = record { held = p.held; inv = rw result at p.inv; others = s.others };
        image = s.image;
        pc = s.pc;
        flat = shape.flat (start.flat flat);
        few = omega (arith, shape.other, start.other, few);
      }

  one-Between :
      (decode : ℕ → Opcode) (bail : M (Unit {0})) (fuel : ℕ) (flag_r two : Bool) (held : ℕ → ℕ)
      (ctx : Ctx) (op : Opcode) (l l' o : List ℕ)
      → 256 ≤ ctx.pc
      → Plain decode flag_r two op (ctx.image ctx.pc)
      → Sides m s0 flag_r held ctx l o
      → Flat two (cache_of flag_r ctx)
      → (cache_of (not flag_r) ctx).len ≤ 3
      → growth op * size two + length l ≤ 256
      → interpret op two l ≡ some l'
      → Ensures (λ _. Between flag_r two ctx l' o) (next_opcode decode bail (suc fuel) ctx)
  one-Between decode bail fuel flag_r two held ctx op l l' o high p v flat few room e =
      let fit : Fit op flag_r two ctx l = record {
        is_op = p.is_op;
        side = p.side;
        mode = p.mode;
        plain = p.plain;
        sizes = Flat-Sized two (operands op two) _ _ p.sizes flat;
        regs = omega (arith, operands-few op two, few);
        there = interpret-le op two l l' e;
        alone = λ h. absurd (ground (arith, h, p.apart));
        room = room;
      } in
      Ensures-mono _ _ (next_opcode decode bail (suc fuel) ctx)
        (next_opcode-Stepped m s0 decode bail fuel flag_r two held ctx l o high v
          (rw p.decoded fit))
        λ _ ctx' s. Stepped-Between op flag_r two ctx l l' o ctx' flat few e (rw p.decoded at s)

  nothing_there : (l : List ℕ) → ◌≡◌ {A = Option (List ℕ)} none (some l) → ⊥
  nothing_there l e = cc

  some-interpret :
      (op : Opcode) (ops : List Opcode) (two : Bool) (l l' : List ℕ)
      → interpret_all (op ∷ ops) two l ≡ some l'
      → (l1 : List ℕ) × (growth op * size two + length l ≤ 256)
        × (interpret op two l ≡ some l1)
        × (interpret_all ops two l1 ≡ some l')
  some-interpret op ops two l l' e = elim (Bool-cases (leb (growth op * size two + length l) 256)) [
    | inl fits ↦ elim (Option-cases (interpret op two l)) [
      | inl n ↦ absurd (nothing_there l' (rw (interpret_all, fits, n) at e))
      | inr (l1, first) ↦ (l1, ground arith, first, rw (interpret_all, fits, first) at e)
    ]
    | inr over ↦ absurd (nothing_there l' (rw (interpret_all, over) at e))
  ]

  -- A run that neither underflows nor overflows, from a context that satisfies the invariant, with
  -- cached items of the size of the opcodes on their stack and at most three on the other one
  run-Ran :
      (decode : ℕ → Opcode) (bail : M (Unit {0})) (fuel : ℕ) (flag_r two : Bool) (ops : List Opcode)
      (held : ℕ → ℕ) (ctx : Ctx) (l l' o : List ℕ)
      → Program decode flag_r two ctx.image ops ctx.pc
      → Sides m s0 flag_r held ctx l o
      → Flat two (cache_of flag_r ctx)
      → (cache_of (not flag_r) ctx).len ≤ 3
      → interpret_all ops two l ≡ some l'
      → Ensures (λ _. Ran flag_r ctx l' o) (next_opcodes decode bail fuel ops ctx)
  run-Ran decode bail fuel flag_r two [] held ctx l l' o code v flat few e =
      let same : l ≡ l' = cc in record { held = held; inv = rw same at v; others = λ f j p q. refl }
  run-Ran decode bail fuel flag_r two (op ∷ ops) held ctx l l' o (high, p, more) v flat few e =
      let (l1, room, first, rest) = some-interpret op ops two l l' e in
      Ensures-bind (next_opcode decode bail (suc fuel)) (λ _. next_opcodes decode bail fuel ops) ctx
        _ _
        (one-Between decode bail fuel flag_r two held ctx op l l1 o high p v flat few room first)
        λ _ ctx1 b.
          Ensures-mono _ _ (next_opcodes decode bail fuel ops ctx1)
            (run-Ran decode bail fuel flag_r two ops b.ran.held ctx1 l1 l' o
              (rw (b.image, b.pc) more) b.ran.inv b.flat b.few rest)
            λ _ ctx2 r. record {
              held = r.held;
              inv = r.inv;
              others = λ f j p q. r.others f j p q ∙ b.ran.others f j p q;
            }

  -- Let opcodes of one size and one stack, of those that `dispatch-Performs` is about, stand one
  -- after the other in memory above the zero page, outside the keep mode, without INC, SFT of shorts
  -- and comparisons of shorts, and let the instruction set's run of them neither underflow nor
  -- overflow. Compiled in that order from a context that satisfies the invariant, with cached items
  -- of their size on their stack and at most three on the other one, and followed by
  -- `buxn_jit_clear_stack_caches`, they fail no assertion, and the code emitted leaves in the VM's
  -- memory the stack that the run gives and the other stack as it was, and does not change the rest
  -- of the VM.
  pub next_opcodes-InMemory :
      (decode : ℕ → Opcode) (bail : M (Unit {0})) (fuel : ℕ) (flag_r two : Bool) (ops : List Opcode)
      (held : ℕ → ℕ) (ctx : Ctx) (l l' o : List ℕ)
      → Program decode flag_r two ctx.image ops ctx.pc
      → Sides m s0 flag_r held ctx l o
      → Flat two (cache_of flag_r ctx)
      → (cache_of (not flag_r) ctx).len ≤ 3
      → interpret_all ops two l ≡ some l'
      → Ensures
          (λ _ ctx'.
            InMemory m s0 (at m s0 ctx') (w_of flag_r l' o) (r_of flag_r l' o) × Others ctx ctx')
          ((next_opcodes decode bail fuel ops >> clear_stack_caches) ctx)
  next_opcodes-InMemory decode bail fuel flag_r two ops held ctx l l' o code v flat few e =
      Ensures-bind (next_opcodes decode bail fuel ops) (λ _. clear_stack_caches) ctx _ _
        (run-Ran decode bail fuel flag_r two ops held ctx l l' o code v flat few e)
        λ _ ctx1 r.
          Ensures-mono _ _ (clear_stack_caches ctx1)
            (clear_stack_caches_lem m s0 r.held ctx1 (w_of flag_r l' o) (r_of flag_r l' o) r.inv)
            λ _ ctx2 (mem, frame). (mem, λ f j p q. frame.others f j p q ∙ r.others f j p q)
