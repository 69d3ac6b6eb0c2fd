-- ===== src/Refine/Session.antt =====
-- An opcode being compiled: the operands it holds, and its stacks so far. A rule for each pop and push.
use buxn_jit.Prelude.{
  ℕ, ◌+◌, ◌-◌, ◌<◌, ◌≤◌, ◌≡◌, ◌≢◌, refl, sym, ap, ◌∙◌, Bool, true, false, some, List, ◌∷◌, ◌++◌,
  append_assoc, arith, length, length-append,
}
use buxn_jit.Lir.{r_op_min, r_op_max}
use buxn_jit.Ctx.{Operand, Ctx, M, ◌>>=◌, ◌>>◌}
use buxn_jit.Regs.{op_flag_r}
use buxn_jit.Micro.Stack.{width, size, push_operand, pop_ex, pop_operand}
use buxn_jit.Opcodes.Control.{Opcode}
use buxn_jit.Machine.{Machine}
use buxn_jit.Refine.Shape.{Shaped, Shaped-trans}
use buxn_jit.Refine.Ensures.{Ensures, Ensures-bind, Ensures-mono}
use buxn_jit.Refine.Push.{item_bytes}
use buxn_jit.Refine.Item.{at}
use buxn_jit.Refine.Alloc.{hold, nothing_held}
use buxn_jit.Refine.Side.{Alone, Ready, Sides, Quiet, Quiet-trans, push_operand-Put}
use buxn_jit.Refine.Ready.{length-item, Taken, pop_ex-Taken, pop_operand-Taken}
use buxn_jit.Refine.Isa.{perform, operands, items, items_of, Within}

pub length-on :
    (two : Bool) (v : ℕ) (l : List ℕ) → length (item_bytes two v ++ l) ≡ size two + length l
length-on two v l = omega (arith, length-append (item_bytes two v) l, length-item two v)

pub items-cons :
    (two : Bool) (v : ℕ) (vs l : List ℕ)
    → item_bytes two v ++ (items two vs ++ l) ≡ items two (v ∷ vs) ++ l
items-cons two v vs l = sym (append_assoc (item_bytes two v) (items two vs) l)

module _ (m : Machine) (s0 : m.State) where
  open m use {State, reg_of, cell}

  -- The operand registers that are held keep their values.
  abbrev pub Kept : (ℕ → ℕ) → Ctx → Ctx → Type 0
  Kept held ctx ctx' =
      (x : ℕ)
      → r_op_min ≤ x
      → x ≤ r_op_max
      → held (x - r_op_min) ≢ 0
      → reg_of (at m s0 ctx') x ≡ reg_of (at m s0 ctx) x

  -- An operand that is held, with its value
  pub record Own (short : Bool) (held : ℕ → ℕ) (ctx : Ctx) (x : Operand) (v : ℕ) : Type 0 where
    pub is_short : x.is_short ≡ short
    pub lo : r_op_min ≤ x.reg
    pub hi : x.reg ≤ r_op_max
    pub value : reg_of (at m s0 ctx) x.reg ≡ v
    pub fits : v < width short
    pub used : held (x.reg - r_op_min) ≢ 0

  pub Own-Kept :
      {short : Bool} {held : ℕ → ℕ} {ctx ctx' : Ctx} {x : Operand} {v : ℕ}
      → Kept held ctx ctx'
      → Own short held ctx x v
      → Own short held ctx' x v
  Own-Kept k w = record {
    is_short = w.is_short;
    lo = w.lo;
    hi = w.hi;
    value = k _ w.lo w.hi w.used ∙ w.value;
    fits = w.fits;
    used = w.used;
  }

  pub Own-hold :
      {short : Bool} {held : ℕ → ℕ} (r : ℕ) {ctx : Ctx} {x : Operand} {v : ℕ}
      → Own short held ctx x v
      → Own short (hold held r) ctx x v
  Own-hold r w = record {
    is_short = w.is_short;
    lo = w.lo;
    hi = w.hi;
    value = w.value;
    fits = w.fits;
    used = ground (arith, w.used);
  }

  -- Compilation from `ctx0` has come to `ctx`, with the stacks `l` and `o`.
  pub record Session (flag_r : Bool) (held : ℕ → ℕ) (ctx0 ctx : Ctx) (l o : List ℕ) : Type 0 where
    pub inv : Sides m s0 flag_r held ctx l o
    pub quiet : Quiet m s0 ctx0 ctx
    pub side : op_flag_r ctx.current_opcode ≡ flag_r

  pub own_bound :
      (flag_r : Bool) (held : ℕ → ℕ) (ctx0 ctx : Ctx) (l o : List ℕ)
      → Session flag_r held ctx0 ctx l o
      → length l ≤ 256
  own_bound true held ctx0 ctx l o s = s.inv.rst_bound
  own_bound false held ctx0 ctx l o s = s.inv.wst_bound

  -- What the opcode has after a pop
  pub record Picked (flag_r mode two : Bool) (held : ℕ → ℕ) (ss : List Bool) (ctx0 ctx : Ctx)
      (l o : List ℕ) (x : Operand) (ctx' : Ctx) : Type 0 where
    pub v : ℕ
    pub rest : List ℕ
    pub item : l ≡ item_bytes two v ++ rest
    pub session : Session flag_r (hold held x.reg) ctx0 ctx' rest o
    pub ready : Ready flag_r mode ss ctx' rest
    pub own : Own two (hold held x.reg) ctx' x v
    pub kept : Kept held ctx ctx'
    pub shape : (t : Bool) → Shaped flag_r t ctx ctx'
    pub alone : Alone flag_r ctx → ctx'.reg_ref_counts (x.reg - r_op_min) ≡ 1

  Taken-Picked :
      (flag_r mode two : Bool) (held : ℕ → ℕ) (ss : List Bool) (ctx0 ctx : Ctx) (l o : List ℕ)
      (x : Operand) (ctx' : Ctx)
      → Session flag_r held ctx0 ctx l o
      → Taken m s0 flag_r mode two held ss ctx l o x ctx'
      → Picked flag_r mode two held ss ctx0 ctx l o x ctx'
  Taken-Picked flag_r mode two held ss ctx0 ctx l o x ctx' s t =
      let g = t.got in
      record {
        v = reg_of (at m s0 ctx') x.reg;
        rest = g.rest;
        item = g.item;
        session = record {
          inv = g.inv;
          quiet = Quiet-trans m s0 ctx0 ctx ctx' s.quiet g.quiet;
          side = ap op_flag_r g.quiet.mode.opcode ∙ s.side;
        };
        ready = t.ready;
        own = record {
          is_short = g.is_short;
          lo = g.lo;
          hi = g.hi;
          value = refl;
          fits = g.fits;
          used = ground arith;
        };
        kept = g.kept;
        shape = g.shape;
        alone = g.alone;
      }

  -- `buxn_jit_pop_ex` in whatever size
  pub pop_ex_step :
      {B : Type 0} (flag_r mode two : Bool) (held : ℕ → ℕ) (ss : List Bool) (ctx0 ctx : Ctx)
      (l o : List ℕ) (k : Operand → M B) (Q : B → Ctx → Type 0)
      → Session flag_r held ctx0 ctx l o
      → Ready flag_r mode (two ∷ ss) ctx l
      → ((x : Operand) (ctx' : Ctx)
          → Picked flag_r mode two held ss ctx0 ctx l o x ctx'
          → Ensures Q (k x ctx'))
      → Ensures Q ((pop_ex two flag_r >>= k) ctx)
  pop_ex_step flag_r mode two held ss ctx0 ctx l o k Q s r next =
      Ensures-bind (pop_ex two flag_r) k ctx _ Q
        (pop_ex-Taken m s0 flag_r mode two held ss ctx l o s.inv r)
        λ x ctx' t. next x ctx' (Taken-Picked flag_r mode two held ss ctx0 ctx l o x ctx' s t)

  -- `buxn_jit_pop`
  pub pop_step :
      {B : Type 0} (flag_r two : Bool) (held : ℕ → ℕ) (ss : List Bool) (ctx0 ctx : Ctx)
      (l o : List ℕ) (k : Operand → M B) (Q : B → Ctx → Type 0)
      → Session flag_r held ctx0 ctx l o
      → Ready flag_r two (two ∷ ss) ctx l
      → ((x : Operand) (ctx' : Ctx)
          → Picked flag_r two two held ss ctx0 ctx l o x ctx'
          → Ensures Q (k x ctx'))
      → Ensures Q ((pop_operand >>= k) ctx)
  pop_step flag_r two held ss ctx0 ctx l o k Q s r next =
      Ensures-bind pop_operand k ctx _ Q (pop_operand-Taken m s0 flag_r two held ss ctx l o s.inv r)
        λ x ctx' t. next x ctx' (Taken-Picked flag_r two two held ss ctx0 ctx l o x ctx' s t)

  -- What it has after its first two pops
  pub record PickedTwo (flag_r two : Bool) (ss : List Bool) (ctx : Ctx) (l o : List ℕ)
      (b a : Operand) (ctx' : Ctx) : Type 0 where
    pub vb : ℕ
    pub va : ℕ
    pub rest : List ℕ
    pub item : l ≡ item_bytes two vb ++ (item_bytes two va ++ rest)
    pub session : Session flag_r (hold (hold nothing_held b.reg) a.reg) ctx ctx' rest o
    pub ready : Ready flag_r two ss ctx' rest
    pub own_b : Own two (hold (hold nothing_held b.reg) a.reg) ctx' b vb
    pub own_a : Own two (hold (hold nothing_held b.reg) a.reg) ctx' a va
    pub shape : (t : Bool) → Shaped flag_r t ctx ctx'

  pub pop_two :
      {B : Type 0} (flag_r two : Bool) (ss : List Bool) (ctx : Ctx) (l o : List ℕ)
      (k : Operand → Operand → M B) (Q : B → Ctx → Type 0)
      → Session flag_r nothing_held ctx ctx l o
      → Ready flag_r two (two ∷ two ∷ ss) ctx l
      → ((b a : Operand) (ctx' : Ctx)
          → PickedTwo flag_r two ss ctx l o b a ctx'
          → Ensures Q (k b a ctx'))
      → Ensures Q ((pop_operand >>= λ b. pop_operand >>= k b) ctx)
  pop_two flag_r two ss ctx l o k Q s r next =
      pop_step flag_r two nothing_held (two ∷ ss) ctx ctx l o _ Q s r λ b ctx1 p.
        pop_step flag_r two (hold nothing_held b.reg) ss ctx ctx1 p.rest o (k b) Q p.session p.ready
          λ a ctx2 p'. next b a ctx2 (record {
            vb = p.v;
            va = p'.v;
            rest = p'.rest;
            item = p.item ∙ ap (λ t. item_bytes two p.v ++ t) p'.item;
            session = p'.session;
            ready = p'.ready;
            own_b = Own-hold a.reg (Own-Kept p'.kept p.own);
            own_a = p'.own;
            shape = λ t. Shaped-trans flag_r t ctx ctx1 ctx2 (p.shape t) (p'.shape t);
          })

  -- What it has after a push
  pub record Pushing (flag_r short : Bool) (held : ℕ → ℕ) (ctx0 ctx : Ctx) (l o : List ℕ)
      (ctx' : Ctx) : Type 0 where
    pub session : Session flag_r held ctx0 ctx' l o
    pub kept : Kept held ctx ctx'
    pub shape : Shaped flag_r short ctx ctx'

  pub push_last :
      (flag_r short : Bool) (held : ℕ → ℕ) (ctx0 ctx : Ctx) (l o : List ℕ) (x : Operand) (v : ℕ)
      → Session flag_r held ctx0 ctx l o
      → Own short held ctx x v
      → held (x.reg - r_op_min) ≤ 16
      → size short + length l ≤ 256
      → Ensures
          (λ _. Pushing flag_r short held ctx0 ctx (item_bytes short v ++ l) o)
          (push_operand x ctx)
  push_last flag_r short held ctx0 ctx l o x v s w few room =
      let item : item_bytes x.is_short (reg_of (at m s0 ctx) x.reg) ≡ item_bytes short v =
        rw (w.is_short, w.value) in
      Ensures-mono _ _ (push_operand x ctx)
        (push_operand-Put m s0 flag_r held ctx x l o s.side s.inv
          (record {
            pushable = (w.lo, w.hi, few);
            used = w.used;
            fits = rw (w.is_short, w.value) w.fits;
          })
          (rw item (omega (arith, length-on short v l))))
        λ _ ctx' p. record {
          session = record {
            inv = rw item at p.inv;
            quiet = Quiet-trans m s0 ctx0 ctx ctx' s.quiet p.quiet;
            side = ap op_flag_r p.quiet.mode.opcode ∙ s.side;
          };
          kept = λ y lo hi used. p.kept y lo hi;
          shape = rw w.is_short at p.shape;
        }

  pub push_step :
      {B : Type 0} (flag_r short : Bool) (held : ℕ → ℕ) (ctx0 ctx : Ctx) (l o : List ℕ)
      (x : Operand) (v : ℕ) (k : M B) (Q : B → Ctx → Type 0)
      → Session flag_r held ctx0 ctx l o
      → Own short held ctx x v
      → held (x.reg - r_op_min) ≤ 16
      → size short + length l ≤ 256
      → ((ctx' : Ctx)
          → Pushing flag_r short held ctx0 ctx (item_bytes short v ++ l) o ctx'
          → Ensures Q (k ctx'))
      → Ensures Q ((push_operand x >> k) ctx)
  push_step flag_r short held ctx0 ctx l o x v k Q s w few room next =
      Ensures-bind (push_operand x) (λ _. k) ctx _ Q
        (push_last flag_r short held ctx0 ctx l o x v s w few room) (λ _ ctx' p. next ctx' p)

  -- The opcode has done what the instruction set says: `values` are its operands and `results` its
  -- results, the top of the stack first.
  pub record Performs (op : Opcode) (flag_r two : Bool) (ctx : Ctx) (l o : List ℕ) (ctx' : Ctx)
      : Type 0 where
    pub values : List ℕ
    pub short : Bool
    pub results : List ℕ
    pub rest : List ℕ
    pub held : ℕ → ℕ
    pub bounded : Within (operands op two) values
    pub before : l ≡ items_of (operands op two) values ++ rest
    pub spec : perform op two values ≡ some (short, results)
    pub inv : Sides m s0 flag_r held ctx' (items short results ++ rest) o
    pub quiet : Quiet m s0 ctx ctx'
    pub shape : Shaped flag_r short ctx ctx'
