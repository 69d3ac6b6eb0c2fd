-- ===== src/Micro/Stack.antt =====
-- src/jit.c, "Micro ops": pushing and popping operands, with the compile-time view of both stacks
-- in step with the stack caches.
use buxn_jit.Prelude.{
  ℕ, ◌+◌, ◌-◌, ◌*◌, ◌/◌, ◌%◌, ◌^◌, Bool, true, false, Option, none, some, not, ◌&&◌, ◌==◌,
  if◌then◌else◌, update,
}
use buxn_jit.Lir.{r_op_min}
use buxn_jit.Ctx.{Value, Operand, Ctx, M, pure, ◌>>=◌, ◌>>◌, get, modify, assert, has, sem_const}
use buxn_jit.Regs.{op_flag_2, op_flag_r}
use buxn_jit.Cache.Spill.{push_cell}
use buxn_jit.Cache.Pop.{pop}

abbrev pub value : ℕ → ℕ → Value
value semantics const_value = record { semantics = semantics; const_value = const_value }

-- The entries that `buxn_jit_push_ex` writes to the compile-time stack
abbrev pub push_values : Operand → (ℕ → Value) → ℕ → ℕ → Value
push_values operand stack sp =
    if operand.is_short
    then update (update stack sp (value operand.semantics (operand.const_value / 2 ^ 8)))
        ((sp + 1) % 256) (value operand.semantics (operand.const_value % 256))
    else update stack sp (value operand.semantics (operand.const_value % 256))

abbrev pub size : Bool → ℕ
size true = 2
size false = 1

-- The numbers that an item of the size can hold
abbrev pub width : Bool → ℕ
width true = 2 ^ 16
width false = 2 ^ 8

abbrev pub track_push : Operand → Bool → Ctx → Ctx
track_push operand true ctx = record ctx {
  rst = push_values operand ctx.rst ctx.rsp;
  rsp = (ctx.rsp + size operand.is_short) % 256;
}
track_push operand false ctx = record ctx {
  wst = push_values operand ctx.wst ctx.wsp;
  wsp = (ctx.wsp + size operand.is_short) % 256;
}

-- `buxn_jit_push_ex`
unfoldable pub push_ex : Operand → Bool → M (Unit {0})
unfolding push_cell
push_ex operand flag_r = do
  ctx ← get
  assert (not (ctx.reg_ref_counts (operand.reg - r_op_min) == 0))
  push_cell flag_r operand
  modify (track_push operand flag_r)

-- `*ewsp` and `*ersp`: the pointers of the keep mode, where they are set
abbrev pub effective_ptr : Bool → Ctx → Option (ℕ × ℕ) → ℕ
effective_ptr true ctx none = ctx.rsp
effective_ptr false ctx none = ctx.wsp
effective_ptr true ctx (some (w, r)) = r
effective_ptr false ctx (some (w, r)) = w

abbrev pub set_effective_ptr : Bool → ℕ → Option (ℕ × ℕ) → Ctx → Ctx
set_effective_ptr true n none ctx = record ctx { rsp = n }
set_effective_ptr false n none ctx = record ctx { wsp = n }
set_effective_ptr true n (some (w, r)) ctx = record ctx { shadow = some (w, n) }
set_effective_ptr false n (some (w, r)) ctx = record ctx { shadow = some (n, r) }

abbrev pub value_stack : Bool → Ctx → ℕ → Value
value_stack true ctx = ctx.rst
value_stack false ctx = ctx.wst

-- What `buxn_jit_pop_ex` takes from the compile-time stack: the value of the operand, less its
-- register
abbrev pub popped_value : Bool → (ℕ → Value) → ℕ → Value
popped_value false stack sp = stack ((sp + 255) % 256)
popped_value true stack sp =
    let lo = stack ((sp + 255) % 256) in
    let hi = stack ((sp + 254) % 256) in
    if has hi.semantics sem_const && has lo.semantics sem_const
    then value sem_const (hi.const_value * 2 ^ 8 + lo.const_value)
    else value 0 0

-- `buxn_jit_pop_ex`
unfoldable pub pop_ex : Bool → Bool → M Operand
unfolding pop
pop_ex flag_2 flag_r = do
  ctx ← get
  let sp = effective_ptr flag_r ctx ctx.shadow
  let v = popped_value flag_2 (value_stack flag_r ctx) sp
  modify (set_effective_ptr flag_r ((sp + 256 - size flag_2) % 256) ctx.shadow)
  r ← pop flag_r flag_2
  pure (record { semantics = v.semantics; is_short = flag_2; const_value = v.const_value; reg = r })

-- The mode flags of the opcode being compiled
abbrev pub flag_2 : M Bool
flag_2 ctx = some (op_flag_2 ctx.current_opcode, ctx)

abbrev pub flag_r : M Bool
flag_r ctx = some (op_flag_r ctx.current_opcode, ctx)

-- `buxn_jit_push`
unfoldable pub push_operand : Operand → M (Unit {0})
unfolding push_ex
push_operand operand = do r ← flag_r; push_ex operand r

-- `buxn_jit_pop`
unfoldable pub pop_operand : M Operand
unfolding pop_ex
pop_operand = do two ← flag_2; r ← flag_r; pop_ex two r
