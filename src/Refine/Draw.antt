-- ===== src/Refine/Draw.antt =====
-- A register drawn for a result, the result computed into it, and its push.
use buxn_jit.Prelude.{
  ℕ, ◌+◌, ◌-◌, ◌<◌, ◌≤◌, ◌≡◌, ap, ◌∙◌, Bool, not, ◌&&◌, List, ◌++◌, arith, length, ◌==◌,
  if◌then◌else◌,
}
use buxn_jit.Lir.{Instr, r_op_min, r_op_max}
use buxn_jit.Ctx.{Operand, Ctx, M, ◌>>=◌}
use buxn_jit.Regs.{op_flag_r, num_op_regs}
use buxn_jit.Cache.Spill.{alloc_reg}
use buxn_jit.Micro.Stack.{width, size, push_operand}
use buxn_jit.Machine.{Machine}
use buxn_jit.Refine.Shape.{Shaped}
use buxn_jit.Refine.Ensures.{Ensures, Ensures-bind}
use buxn_jit.Refine.Push.{item_bytes}
use buxn_jit.Refine.Item.{at}
use buxn_jit.Refine.Cached.{refs}
use buxn_jit.Refine.Alloc.{hold, nothing_held, alloc_reg-Allocated}
use buxn_jit.Refine.Side.{w_of, r_of, Quiet-trans, Frame-Quiet}
use buxn_jit.Refine.Compute.{Wrote, with_code, Wrote-Inv, Wrote-Quiet}
use buxn_jit.Refine.Session.{Kept, Session, Pushing, push_last}

-- A register that neither of two operands is in
pub spare : ℕ → ℕ → ℕ
spare b a =
    if not (b - r_op_min == 0) && not (a - r_op_min == 0)
    then 0
    else if not (b - r_op_min == 1) && not (a - r_op_min == 1)
    then 1
    else 2

pub spare_lem :
    (b a : ℕ) → (spare b a < num_op_regs) × (hold (hold nothing_held b) a (spare b a) ≡ 0)
unfolding spare
spare_lem b a = (ground arith, ground arith)

module _ (m : Machine) (s0 : m.State) where
  open m use {State, reg_of, cell}

  -- What the opcode has after drawing a register
  pub record Drawn (flag_r : Bool) (held : ℕ → ℕ) (ctx0 ctx : Ctx) (l o : List ℕ) (new : ℕ)
      (ctx' : Ctx) : Type 0 where
    pub lo : r_op_min ≤ new
    pub hi : new ≤ r_op_max
    pub no_w : refs ctx'.wst_cache.cells ctx'.wst_cache.len (new - r_op_min) ≡ 0
    pub no_r : refs ctx'.rst_cache.cells ctx'.rst_cache.len (new - r_op_min) ≡ 0
    pub unheld : held (new - r_op_min) ≡ 0
    pub session : Session m s0 flag_r (hold held new) ctx0 ctx' l o
    pub kept : Kept m s0 held ctx ctx'
    pub shape : (t : Bool) → Shaped flag_r t ctx ctx'

  pub draw_step :
      {B : Type 0} (flag_r : Bool) (held : ℕ → ℕ) (ctx0 ctx : Ctx) (l o : List ℕ) (x : ℕ)
      (k : ℕ → M B) (Q : B → Ctx → Type 0)
      → Session m s0 flag_r held ctx0 ctx l o
      → x < num_op_regs
      → held x ≡ 0
      → ((new : ℕ) (ctx' : Ctx) → Drawn flag_r held ctx0 ctx l o new ctx' → Ensures Q (k new ctx'))
      → Ensures Q ((alloc_reg >>= k) ctx)
  draw_step flag_r held ctx0 ctx l o x k Q s hx free next =
      Ensures-bind alloc_reg k ctx _ Q
        (alloc_reg-Allocated m s0 held ctx (w_of flag_r l o) (r_of flag_r l o) x hx free s.inv)
        λ new ctx' a. next new ctx' (record {
          lo = a.lo;
          hi = a.hi;
          no_w = a.unused.0;
          no_r = a.unused.1;
          unheld = a.unused.2;
          session = record {
            inv = a.inv;
            quiet = Quiet-trans m s0 ctx0 ctx ctx' s.quiet (Frame-Quiet m s0 ctx ctx' a.frame);
            side = ap op_flag_r a.frame.mode.opcode ∙ s.side;
          };
          kept = λ y lo hi used. a.frame.regs y lo hi;
          shape = λ t. a.shape flag_r t;
        })

  -- The calls that compute the result, and its push
  pub compute_last :
      (flag_r short : Bool) (held : ℕ → ℕ) (ctx0 ctx ctx' : Ctx) (l o : List ℕ) (new v : ℕ)
      (code : List Instr) (c : Operand)
      → Drawn flag_r held ctx0 ctx l o new ctx'
      → Wrote m s0 new (at m s0 ctx') (at m s0 (with_code m s0 code ctx'))
      → reg_of (at m s0 (with_code m s0 code ctx')) new ≡ v
      → v < width short
      → c.is_short ≡ short
      → c.reg ≡ new
      → size short + length l ≤ 256
      → Ensures
          (λ _.
            Pushing m s0 flag_r short
              (hold held new)
              ctx0
              (with_code m s0 code ctx')
              (item_bytes short v ++ l)
              o)
          (push_operand c (with_code m s0 code ctx'))
  compute_last flag_r short held ctx0 ctx ctx' l o new v code c d k value fits short_c at_new room =
      push_last m s0 flag_r short (hold held new) ctx0 (with_code m s0 code ctx') l o c v
        (record {
          inv =
              Wrote-Inv m s0 (hold held new) new ctx' code (w_of flag_r l o) (r_of flag_r l o) d.lo
                d.hi d.no_w d.no_r k d.session.inv;
          quiet =
              Quiet-trans m s0 ctx0 ctx' (with_code m s0 code ctx') d.session.quiet
                (Wrote-Quiet m s0 new ctx' code k);
          side = d.session.side;
        })
        (record {
          is_short = short_c;
          lo = rw at_new d.lo;
          hi = rw at_new d.hi;
          value = rw at_new value;
          fits = fits;
          used = rw at_new (ground arith);
        })
        (rw at_new (ground (arith, d.unheld))) room
