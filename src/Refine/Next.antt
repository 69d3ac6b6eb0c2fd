-- ===== src/Refine/Next.antt =====
-- `buxn_jit_next_opcode` on an opcode that works on one stack, from one opcode to the next.
use buxn_jit.Prelude.{
  ℕ, zero, suc, ◌+◌, ◌-◌, ◌*◌, ◌%◌, ◌^◌, ◌<◌, ◌≤◌, ◌≡◌, ◌≢◌, refl, ap, ◌∙◌, Bool, true, false, not,
  List, [], ◌∷◌, arith, length, ltb,
}
use mathlib.Core.Path.{subst}
use buxn_jit.Lir.{Field, ws, rs, same_field, r_op_min}
use buxn_jit.Ctx.{Cell, Cache, Ctx, M, cache_of}
use buxn_jit.Regs.{op_flag_2, op_flag_k, op_flag_r, num_op_regs}
use buxn_jit.Cache.Pop.{top_cell}
use buxn_jit.Micro.Stack.{size}
use buxn_jit.Opcodes.Control.{Opcode, begin_opcode, next_opcode, dispatch}
use buxn_jit.Machine.{Machine}
use buxn_jit.Refine.Steady.{one_stack-Steady}
use buxn_jit.Refine.Ensures.{Ensures-Keeps, Ensures, Ensures-mono, Ensures-run}
use buxn_jit.Refine.Item.{at}
use buxn_jit.Refine.Cached.{refs, refs-congr}
use buxn_jit.Refine.Inv.{Counted}
use buxn_jit.Refine.Alloc.{nothing_held}
use buxn_jit.Refine.Start.{started, settled, settled_value, begin_opcode-run, started-Started}
use buxn_jit.Refine.Side.{w_of, r_of, Alone, free_from, free_regs, Sized, total, Ready, Sides}
use buxn_jit.Refine.Isa.{operands, in_place, growth}
use buxn_jit.Refine.Session.{Performs}
use buxn_jit.Refine.Straight.{dispatch-Performs}

-- Each cell takes one register at most.
refs_total :
    (cells : ℕ → Cell) (n : ℕ)
    → refs cells n 0
        + refs cells n 1
        + refs cells n 2
        + refs cells n 3
        + refs cells n 4
        + refs cells n 5
      ≤ n
refs_total cells zero = omega arith
refs_total cells (suc n) = ground (arith, refs_total cells n)

-- Where the cells alone count, the registers that they do not take are free.
free_enough :
    (ctx : Ctx)
    → Counted nothing_held ctx
    → num_op_regs ≤ free_regs ctx + ctx.wst_cache.len + ctx.rst_cache.len
unfolding free_from
free_enough ctx c = ground (
  arith,
  c 0,
  c 1,
  c 2,
  c 3,
  c 4,
  c 5,
  refs_total ctx.wst_cache.cells ctx.wst_cache.len,
  refs_total ctx.rst_cache.cells ctx.rst_cache.len,
)

-- What a block under compilation has to meet for its next opcode: the items of the opcode's stack
-- that are cached have the opcode's size, the stack is deep enough, and has room for the results.
pub record Fit (op : Opcode) (flag_r two : Bool) (ctx : Ctx) (l : List ℕ) : Type 0 where
  pub is_op : operands op two ≢ []
  pub side : op_flag_r (ctx.image ctx.pc) ≡ flag_r
  pub mode : op_flag_2 (ctx.image ctx.pc) ≡ two
  pub plain : op_flag_k (ctx.image ctx.pc) ≡ false
  pub sizes : Sized (operands op two) (cache_of flag_r ctx).cells (cache_of flag_r ctx).len
  pub regs : length (operands op two) + (cache_of (not flag_r) ctx).len ≤ num_op_regs
  pub there : total (operands op two) ≤ length l
  pub alone :
      in_place op ≡ true
      → (cache_of flag_r ctx).len ≢ 0
      → let x = (top_cell flag_r ctx).value.reg - r_op_min in
        refs ctx.wst_cache.cells ctx.wst_cache.len x + refs ctx.rst_cache.cells ctx.rst_cache.len x
        ≡ 1
  pub room : growth op * size two + length l ≤ 256

Sized-congr :
    (ss : List Bool) (cells cells' : ℕ → Cell) (n : ℕ)
    → ((i : ℕ) → i < n → cells' i ≡ cells i)
    → Sized ss cells n
    → Sized ss cells' n
Sized-congr [] cells cells' n h z = tt
Sized-congr (s ∷ ss) cells cells' zero h z = tt
Sized-congr (s ∷ ss) cells cells' (suc n) h (top, below) = (
  ap (λ (c : Cell). c.value.is_short) (h n (omega arith)) ∙ top,
  Sized-congr ss cells cells' n (λ i p. h i (omega arith)) below,
)

settled_sizes :
    (cache : Cache) (ss : List Bool)
    → Sized ss cache.cells cache.len
    → Sized ss (settled cache).cells (cache.len - 0)
settled_sizes cache ss z =
    let same : cache.len ≡ cache.len - 0 = omega arith in
    Sized-congr ss cache.cells (settled cache).cells (cache.len - 0)
      (λ i p. settled_value cache i (omega arith)) (subst (Sized ss cache.cells) same z)

started-Ready :
    (op : Opcode) (flag_r two : Bool) (ctx : Ctx) (l : List ℕ)
    → Fit op flag_r two ctx l
    → Counted nothing_held (started ctx)
    → Ready flag_r two (operands op two) (started ctx) l
started-Ready op true two ctx l f c = record {
  side = f.side;
  mode = f.mode;
  shadow = refl;
  wsp_reg = refl;
  rsp_reg = refl;
  sizes = settled_sizes ctx.rst_cache (operands op two) f.sizes;
  regs = omega (arith, free_enough (started ctx) c, f.regs);
  there = f.there;
}
started-Ready op false two ctx l f c = record {
  side = f.side;
  mode = f.mode;
  shadow = refl;
  wsp_reg = refl;
  rsp_reg = refl;
  sizes = settled_sizes ctx.wst_cache (operands op two) f.sizes;
  regs = omega (arith, free_enough (started ctx) c, f.regs);
  there = f.there;
}

refs-settled :
    (cache : Cache) (x : ℕ)
    → refs (settled cache).cells (cache.len - 0) x ≡ refs cache.cells cache.len x
refs-settled cache x =
    let same : cache.len - 0 ≡ cache.len = omega arith in
    refs-congr cache.cells (settled cache).cells (cache.len - 0) x
      (λ i p. ap (λ (c : Cell). c.value) (settled_value cache i (omega arith)))
    ∙ ap (λ n. refs cache.cells n x) same

-- The top of a cache that has been recounted
top-settled :
    (cache : Cache)
    → cache.len ≢ 0
    → ((settled cache).cells (cache.len - 0 - 1)) ≡ cache.cells (cache.len - 1)
top-settled cache ne =
    let same : cache.len - 0 - 1 ≡ cache.len - 1 = omega arith in
    ap (settled cache).cells same ∙ settled_value cache (cache.len - 1) (omega arith)

started-Alone :
    (flag_r : Bool) (ctx : Ctx)
    → Counted nothing_held (started ctx)
    → ((cache_of flag_r ctx).len ≢ 0
        → let x = (top_cell flag_r ctx).value.reg - r_op_min in
          refs ctx.wst_cache.cells ctx.wst_cache.len x
            + refs ctx.rst_cache.cells ctx.rst_cache.len x
          ≡ 1)
    → Alone flag_r (started ctx)
started-Alone true ctx c h ne =
    let x = (top_cell true ctx).value.reg - r_op_min in
    let same =
      ap (λ (t : Cell). t.value.reg - r_op_min) (top-settled ctx.rst_cache (omega arith)) in
    rw same (
      omega
        (arith, c x, h (omega arith), refs-settled ctx.wst_cache x, refs-settled ctx.rst_cache x))
started-Alone false ctx c h ne =
    let x = (top_cell false ctx).value.reg - r_op_min in
    let same =
      ap (λ (t : Cell). t.value.reg - r_op_min) (top-settled ctx.wst_cache (omega arith)) in
    rw same (
      omega
        (arith, c x, h (omega arith), refs-settled ctx.wst_cache x, refs-settled ctx.rst_cache x))

module _ (m : Machine) (s0 : m.State) where
  open m use {State, reg_of, cell}

  -- One opcode further
  pub record Stepped (op : Opcode) (flag_r two : Bool) (ctx : Ctx) (l o : List ℕ) (ctx' : Ctx)
      : Type 0 where
    pub performs : Performs m s0 op flag_r two (started ctx) l o ctx'
    pub image : ctx'.image ≡ ctx.image
    pub pc : ctx'.pc ≡ (ctx.pc + 1) % 2 ^ 16
    pub others :
        (f : Field) (j : ℕ)
        → same_field ws f ≡ false
        → same_field rs f ≡ false
        → cell (at m s0 ctx') f j ≡ cell (at m s0 ctx) f j

  -- Between two opcodes, whatever operands the first still held, at an address outside the zero
  -- page that holds one of the eighteen opcodes of `dispatch-Performs`, and where it fits: it is not
  -- in the keep mode, its cached operands have its sizes, there are registers for those in memory,
  -- the stack is deep enough and has room for the results, and, for INC, nothing else is in the
  -- register of its operand. Compiling it fails no assertion, moves on to the next address, and the
  -- code emitted does to the opcode's stack what the instruction set says. The other stack and the
  -- rest of the VM stay.
  pub next_opcode-Stepped :
      (decode : ℕ → Opcode) (bail : M (Unit {0})) (fuel : ℕ) (flag_r two : Bool) (held : ℕ → ℕ)
      (ctx : Ctx) (l o : List ℕ)
      → let op = decode (ctx.image ctx.pc) in
        256 ≤ ctx.pc
        → Sides m s0 flag_r held ctx l o
        → Fit op flag_r two ctx l
        → Ensures (λ _. Stepped op flag_r two ctx l o) (next_opcode decode bail (suc fuel) ctx)
  unfolding next_opcode
  next_opcode-Stepped decode bail fuel flag_r two held ctx l o high v f =
      let op = decode (ctx.image ctx.pc) in
      let outside : ltb ctx.pc 256 ≡ false = ground arith in
      let s = started-Started m s0 held ctx (w_of flag_r l o) (r_of flag_r l o) v in
      rw outside (
        Ensures-run begin_opcode _ ctx _ (begin_opcode-run ctx v.wst_fresh v.rst_fresh f.plain) (
          Ensures-mono _ _ (dispatch op (next_opcode decode bail fuel) (started ctx))
            (Ensures-Keeps (dispatch op (next_opcode decode bail fuel)) (started ctx) _
              (one_stack-Steady op two (next_opcode decode bail fuel) f.is_op)
              (dispatch-Performs m s0 op (next_opcode decode bail fuel) flag_r two (started ctx) l o
                f.is_op s.inv (started-Ready op flag_r two ctx l f s.inv.counted) f.plain
                (λ e. started-Alone flag_r ctx s.inv.counted (f.alone e)) f.room))
            λ _ ctx' (p, steady). record {
              performs = p;
              image = steady.image;
              pc = p.quiet.mode.pc;
              others = p.quiet.others;
            }))
