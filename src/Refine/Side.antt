-- ===== src/Refine/Side.antt =====
-- Both stacks as an opcode sees them: its own, by BUXN_JIT_OP_R, and the other one; and what its pops
-- and pushes do to them.
use buxn_jit.Prelude.{
  ℕ, zero, suc, ◌+◌, ◌-◌, ◌<◌, ◌≤◌, ◌≡◌, ◌≢◌, ◌∙◌, Bool, true, false, none, List, [], ◌∷◌, ◌++◌,
  length, ◌==◌, if◌then◌else◌,
}
use buxn_jit.Lir.{Field, ws, rs, same_field, r_op_min, r_op_max, s_wsp, s_rsp}
use buxn_jit.Ctx.{Operand, Cell, Ctx, cache_of}
use buxn_jit.Regs.{op_flag_2, op_flag_r, num_op_regs}
use buxn_jit.Cache.Pop.{top_cell}
use buxn_jit.Micro.Stack.{width, size, push_ex, push_operand}
use buxn_jit.Machine.{Machine}
use buxn_jit.Refine.Shape.{Shaped}
use buxn_jit.Refine.Ensures.{Ensures, Ensures-mono}
use buxn_jit.Refine.Push.{item_bytes, length-item_bytes}
use buxn_jit.Refine.Item.{at}
use buxn_jit.Refine.Inv.{Inv, SameMode, SameMode-trans, Frame}
use buxn_jit.Refine.Alloc.{hold}
use buxn_jit.Refine.Cell.{Pushable, OnTop}
use buxn_jit.Refine.Operand.{push_ex-OnTop}

-- The working and the return stack, from the own and the other one
abbrev pub w_of : Bool → List ℕ → List ℕ → List ℕ
w_of true l o = o
w_of false l o = l

abbrev pub r_of : Bool → List ℕ → List ℕ → List ℕ
r_of true l o = l
r_of false l o = o

-- The registers from index `i` on, `n` of them, that nothing refers to
unfoldable pub free_from : (ℕ → ℕ) → ℕ → ℕ → ℕ
free_from counts zero i = 0
free_from counts (suc n) i = (if counts i == 0 then 1 else 0) + free_from counts n (i + 1)

abbrev pub free_regs : Ctx → ℕ
free_regs ctx = free_from ctx.reg_ref_counts num_op_regs 0

-- The top cells have the sizes, as far as there are cells.
abbrev pub Sized : List Bool → (ℕ → Cell) → ℕ → Type 0
Sized [] cells n = Unit {0}
Sized (s ∷ ss) cells zero = Unit {0}
Sized (s ∷ ss) cells (suc n) = ((cells n).value.is_short ≡ s) × Sized ss cells n

abbrev pub total : List Bool → ℕ
total [] = 0
total (s ∷ ss) = size s + total ss

-- Items of the sizes `ss` can be popped off the opcode's stack, one after the other: what is cached
-- of them has those sizes, the rest is in memory, and there is a register for each of those. The
-- opcode's own size is `two`.
pub record Ready (flag_r two : Bool) (ss : List Bool) (ctx : Ctx) (l : List ℕ) : Type 0 where
  pub side : op_flag_r ctx.current_opcode ≡ flag_r
  pub mode : op_flag_2 ctx.current_opcode ≡ two
  pub shadow : ctx.shadow ≡ none
  pub wsp_reg : ctx.wsp_reg ≡ s_wsp
  pub rsp_reg : ctx.rsp_reg ≡ s_rsp
  pub sizes : Sized ss (cache_of flag_r ctx).cells (cache_of flag_r ctx).len
  pub regs : length ss ≤ (cache_of flag_r ctx).len + free_regs ctx
  pub there : total ss ≤ length l

-- The register of the top cell, if there is one, is in no other cell and held by no operand.
abbrev pub Alone : Bool → Ctx → Type 0
Alone flag_r ctx =
    (cache_of flag_r ctx).len ≢ 0
    → ctx.reg_ref_counts ((top_cell flag_r ctx).value.reg - r_op_min) ≡ 1

module _ (m : Machine) (s0 : m.State) where
  open m use {State, reg_of, cell}

  abbrev pub Sides : Bool → (ℕ → ℕ) → Ctx → List ℕ → List ℕ → Type 0
  Sides flag_r held ctx l o = Inv m s0 held ctx (w_of flag_r l o) (r_of flag_r l o)

  -- What every opcode leaves alone: its mode, and the VM apart from its stacks
  pub record Quiet (ctx ctx' : Ctx) : Type 0 where
    pub mode : SameMode ctx ctx'
    pub others :
        (f : Field) (j : ℕ)
        → same_field ws f ≡ false
        → same_field rs f ≡ false
        → cell (at m s0 ctx') f j ≡ cell (at m s0 ctx) f j

  pub Quiet-trans : (a b c : Ctx) → Quiet a b → Quiet b c → Quiet a c
  Quiet-trans a b c p q = record {
    mode = SameMode-trans a b c p.mode q.mode;
    others = λ f j h k. q.others f j h k ∙ p.others f j h k;
  }

  pub Frame-Quiet : (a b : Ctx) → Frame m s0 a b → Quiet a b
  Frame-Quiet a b f = record { mode = f.mode; others = f.others }

  -- What a pop hands out
  pub record Got (flag_r two : Bool) (held : ℕ → ℕ) (ctx : Ctx) (l o : List ℕ) (operand : Operand)
      (ctx' : Ctx) : Type 0 where
    pub rest : List ℕ
    pub is_short : operand.is_short ≡ two
    pub lo : r_op_min ≤ operand.reg
    pub hi : operand.reg ≤ r_op_max
    pub fits : reg_of (at m s0 ctx') operand.reg < width two
    pub item : l ≡ item_bytes two (reg_of (at m s0 ctx') operand.reg) ++ rest
    pub inv : Sides flag_r (hold held operand.reg) ctx' rest o
    pub kept :
        (x : ℕ)
        → r_op_min ≤ x
        → x ≤ r_op_max
        → held (x - r_op_min) ≢ 0
        → reg_of (at m s0 ctx') x ≡ reg_of (at m s0 ctx) x
    pub alone : Alone flag_r ctx → ctx'.reg_ref_counts (operand.reg - r_op_min) ≡ 1
    pub shape : (t : Bool) → Shaped flag_r t ctx ctx'
    pub quiet : Quiet ctx ctx'

  -- A push on either stack
  pub record Put (flag_r short : Bool) (held : ℕ → ℕ) (ctx : Ctx) (l o : List ℕ) (ctx' : Ctx)
      : Type 0 where
    pub inv : Sides flag_r held ctx' l o
    pub kept :
        (x : ℕ) → r_op_min ≤ x → x ≤ r_op_max → reg_of (at m s0 ctx') x ≡ reg_of (at m s0 ctx) x
    pub shape : Shaped flag_r short ctx ctx'
    pub quiet : Quiet ctx ctx'

  -- An operand that the opcode may push
  pub record Held (held : ℕ → ℕ) (ctx : Ctx) (operand : Operand) : Type 0 where
    pub pushable : Pushable m s0 held operand
    pub used : held (operand.reg - r_op_min) ≢ 0
    pub fits : reg_of (at m s0 ctx) operand.reg < width operand.is_short

  OnTop-Put :
      (flag_r short : Bool) (held : ℕ → ℕ) (ctx : Ctx) (item l o : List ℕ) (ctx' : Ctx)
      → length item ≡ length (item_bytes short 0)
      → OnTop m s0 flag_r held ctx item (w_of flag_r l o) (r_of flag_r l o) ctx'
      → Put flag_r short held ctx (item ++ l) o ctx'
  OnTop-Put true short held ctx item l o ctx' e t = record {
    inv = t.inv;
    kept = t.frame.regs;
    shape = t.shape short e;
    quiet = Frame-Quiet ctx ctx' t.frame;
  }
  OnTop-Put false short held ctx item l o ctx' e t = record {
    inv = t.inv;
    kept = t.frame.regs;
    shape = t.shape short e;
    quiet = Frame-Quiet ctx ctx' t.frame;
  }

  pub push_ex-Put :
      (flag_r : Bool) (held : ℕ → ℕ) (ctx : Ctx) (operand : Operand) (l o : List ℕ)
      → let item = item_bytes operand.is_short (reg_of (at m s0 ctx) operand.reg) in
        Sides flag_r held ctx l o
        → Held held ctx operand
        → length (item ++ l) ≤ 256
        → Ensures
            (λ _. Put flag_r operand.is_short held ctx (item ++ l) o)
            (push_ex operand flag_r ctx)
  push_ex-Put true held ctx operand l o v h room =
      Ensures-mono _ _ (push_ex operand true ctx)
        (push_ex-OnTop m s0 true held ctx operand o l v h.pushable h.fits h.used v.wst_bound room)
        λ _ ctx' t.
          OnTop-Put true operand.is_short held ctx _ l o ctx' (length-item_bytes operand.is_short _)
            t
  push_ex-Put false held ctx operand l o v h room =
      Ensures-mono _ _ (push_ex operand false ctx)
        (push_ex-OnTop m s0 false held ctx operand l o v h.pushable h.fits h.used room v.rst_bound)
        λ _ ctx' t.
          OnTop-Put false operand.is_short held ctx _ l o ctx'
            (length-item_bytes operand.is_short _) t

  -- `buxn_jit_push`
  pub push_operand-Put :
      (flag_r : Bool) (held : ℕ → ℕ) (ctx : Ctx) (operand : Operand) (l o : List ℕ)
      → let item = item_bytes operand.is_short (reg_of (at m s0 ctx) operand.reg) in
        op_flag_r ctx.current_opcode ≡ flag_r
        → Sides flag_r held ctx l o
        → Held held ctx operand
        → length (item ++ l) ≤ 256
        → Ensures
            (λ _. Put flag_r operand.is_short held ctx (item ++ l) o)
            (push_operand operand ctx)
  unfolding push_operand
  push_operand-Put flag_r held ctx operand l o side v h room =
      rw side (push_ex-Put flag_r held ctx operand l o v h room)
