-- ===== src/Cache/Pop.antt =====
-- src/jit.c, "Stack cache": popping and discarding the newest item. A pop from an empty cache reads
-- the VM's stack, a byte is split off a short, and a short is joined from two bytes.
use buxn_jit.Prelude.{ℕ, ◌-◌, ◌==◌, Bool, true, false, if◌then◌else◌}
use buxn_jit.Lir.{reg, imm, mem, op1, op2, mov_u8, sub, shl, lshr, or, r_mem_offset, r_tmp}
use buxn_jit.Ctx.{
  Cell, Ctx, M, pure, ◌>>=◌, ◌>>◌, get, skip, when, emit, cache_of, stack_ptr_reg, stack_field,
}
use buxn_jit.Regs.{release_reg}
use buxn_jit.Cache.Spill.{set_mem_base, decr, set_cell, set_len, alloc_reg}

abbrev pub load_below : ℕ → ℕ → M (Unit {0})
load_below sp dst = do
  decr sp
  emit (op1 mov_u8 (reg r_mem_offset) (reg sp))
  emit (op1 mov_u8 (reg dst) mem)

-- `buxn_jit_pop_from_mem`
unfoldable pub pop_from_mem : Bool → Bool → M ℕ
unfolding set_mem_base alloc_reg
pop_from_mem flag_2 flag_r = do
  set_mem_base (stack_field flag_r)
  ctx ← get
  let sp = stack_ptr_reg flag_r ctx
  r ← alloc_reg
  load_below sp r
  when flag_2 (do
    load_below sp r_tmp
    emit (op2 shl r_tmp (reg r_tmp) (imm 8))
    emit (op2 or r (reg r) (reg r_tmp)))
  pure r

abbrev pub top_cell : Bool → Ctx → Cell
top_cell flag_r ctx = (cache_of flag_r ctx).cells ((cache_of flag_r ctx).len - 1)

abbrev pub as_byte : Cell → Cell
as_byte cell = record cell { value = record (cell.value) { is_short = false } }

-- `buxn_jit_stack_cache_pop` of a byte. `top` stays the address of one array element while the
-- allocation may move the cells.
unfoldable pub pop_byte : Bool → M ℕ
unfolding pop_from_mem
pop_byte flag_r = do
  ctx ← get
  let n = (cache_of flag_r ctx).len
  if n == 0 then pop_from_mem false flag_r else (do
    let top = top_cell flag_r ctx
    if top.value.is_short
        then (do
          r ← alloc_reg
          ctx' ← get
          if (cache_of flag_r ctx').len == 0
              then (do release_reg r; pop_from_mem false flag_r)
              else (do
                let cell = (cache_of flag_r ctx').cells (n - 1)
                emit (op1 mov_u8 (reg r) (reg cell.value.reg))
                emit (op2 lshr cell.value.reg (reg cell.value.reg) (imm 8))
                set_cell flag_r (n - 1) (as_byte cell)
                pure r))
        else (do set_len flag_r (n - 1); pure top.value.reg))

-- `buxn_jit_stack_cache_pop`
unfoldable pub pop : Bool → Bool → M ℕ
unfolding pop_byte
pop flag_r false = pop_byte flag_r
pop flag_r true = do
  ctx ← get
  let n = (cache_of flag_r ctx).len
  if n == 0 then pop_from_mem true flag_r else (do
    let top = top_cell flag_r ctx
    set_len flag_r (n - 1)
    if top.value.is_short then pure top.value.reg else (do
      hi ← pop_byte flag_r
      ctx' ← get
      let low = (cache_of flag_r ctx').cells (n - 1)
      emit (op2 shl hi (reg hi) (imm 8))
      emit (op2 or hi (reg hi) (reg low.value.reg))
      release_reg low.value.reg
      pure hi))

-- `buxn_jit_discard_from_mem`
unfoldable pub discard_from_mem : Bool → Bool → M (Unit {0})
discard_from_mem flag_2 flag_r = do
  ctx ← get
  let sp = stack_ptr_reg flag_r ctx
  emit (op2 sub sp (reg sp) (imm (if flag_2 then 2 else 1)))

-- `buxn_jit_stack_cache_discard` of a byte
unfoldable pub discard_byte : Bool → M (Unit {0})
unfolding discard_from_mem release_reg
discard_byte flag_r = do
  ctx ← get
  let n = (cache_of flag_r ctx).len
  if n == 0 then discard_from_mem false flag_r else (do
    let top = top_cell flag_r ctx
    if top.value.is_short
        then (do
          emit (op2 lshr top.value.reg (reg top.value.reg) (imm 8))
          set_cell flag_r (n - 1) (as_byte top))
        else (do set_len flag_r (n - 1); release_reg top.value.reg))

-- `buxn_jit_stack_cache_discard`
unfoldable pub discard : Bool → Bool → M (Unit {0})
unfolding discard_byte
discard flag_r false = discard_byte flag_r
discard flag_r true = do
  ctx ← get
  let n = (cache_of flag_r ctx).len
  if n == 0 then discard_from_mem true flag_r else (do
    let top = top_cell flag_r ctx
    set_len flag_r (n - 1)
    release_reg top.value.reg
    if top.value.is_short then skip else discard_byte flag_r)
