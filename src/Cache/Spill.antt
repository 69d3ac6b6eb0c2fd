-- ===== src/Cache/Spill.antt =====
-- src/jit.c, "Stack cache": writing items to the VM's stack, spilling the oldest item, and
-- allocating a register, which spills until one is free.
use buxn_jit.Prelude.{
  ℕ, zero, suc, ◌+◌, ◌-◌, ◌==◌, leb, ltb, Bool, true, false, Option, none, some, not, if◌then◌else◌,
  update,
}
use buxn_jit.Lir.{
  Field, same_field, reg, imm, offset_of, mem, op1, op2, mov_u8, add, sub, lshr, and, r_mem_base,
  r_mem_offset, r_tmp, s_vm,
}
use buxn_jit.Ctx.{
  Operand, Cell, Cache, M, pure, ◌>>=◌, ◌>>◌, get, modify, skip, when, emit, cache_size, cache_of,
  with_cache, saved_ptr_reg, stack_field,
}
use buxn_jit.Regs.{op_flag_r, find_free_reg, retain_reg, release_reg}

abbrev pub is_base : Option Field → Field → Bool
is_base none base = false
is_base (some f) base = same_field f base

-- `buxn_jit_set_mem_base`
unfoldable pub set_mem_base : Field → M (Unit {0})
set_mem_base base = do
  ctx ← get
  when (not (is_base ctx.mem_base base)) (do
    emit (op2 add r_mem_base (reg s_vm) (offset_of base))
    modify λ ctx. record ctx { mem_base = some base })

abbrev pub incr : ℕ → M (Unit {0})
incr r = emit (op2 add r (reg r) (imm 1))

abbrev pub decr : ℕ → M (Unit {0})
decr r = emit (op2 sub r (reg r) (imm 1))

-- `buxn_jit_do_push`
unfoldable pub do_push : Operand → Bool → M (Unit {0})
unfolding set_mem_base
do_push operand flag_r =
    let sp = saved_ptr_reg flag_r in
    do
      set_mem_base (stack_field flag_r)
      emit (op1 mov_u8 (reg r_mem_offset) (reg sp))
      if operand.is_short
          then (do
            emit (op2 lshr r_tmp (reg operand.reg) (imm 8))
            emit (op1 mov_u8 mem (reg r_tmp))
            incr sp
            emit (op1 mov_u8 (reg r_mem_offset) (reg sp))
            emit (op2 and r_tmp (reg operand.reg) (imm 0xff))
            emit (op1 mov_u8 mem (reg r_tmp))
            incr sp)
          else (do emit (op1 mov_u8 mem (reg operand.reg)); incr sp)

abbrev pub set_cell : Bool → ℕ → Cell → M (Unit {0})
set_cell flag_r i cell = modify λ ctx.
    with_cache flag_r
      (record (cache_of flag_r ctx) { cells = update ((cache_of flag_r ctx).cells) i cell }) ctx

abbrev pub set_len : Bool → ℕ → M (Unit {0})
set_len flag_r n = modify λ ctx. with_cache flag_r (record (cache_of flag_r ctx) { len = n }) ctx

-- `buxn_jit_flush_cell`, on the cell at an index
unfoldable pub flush_cell : Bool → ℕ → M (Unit {0})
unfolding do_push
flush_cell flag_r i = do
  ctx ← get
  let cell = (cache_of flag_r ctx).cells i
  do_push cell.value flag_r
  set_cell flag_r i (record cell { need_flush = false })

-- `memmove(&cells[0], &cells[k], n * sizeof(cells[0]))`
abbrev pub move_down : (ℕ → Cell) → ℕ → ℕ → ℕ → Cell
move_down cells k n i = if ltb i n then cells (i + k) else cells i

abbrev pub drop_bottom : Cache → Cache
drop_bottom cache = record { cells = move_down cache.cells 1 (cache.len - 1); len = cache.len - 1 }

-- `buxn_jit_stack_cache_spill`
unfoldable pub spill : Bool → M Bool
unfolding flush_cell release_reg
spill flag_r = do
  ctx ← get
  if (cache_of flag_r ctx).len == 0 then pure false else (do
    when ((cache_of flag_r ctx).cells 0).need_flush (flush_cell flag_r 0)
    release_reg ((cache_of flag_r ctx).cells 0).value.reg
    modify λ ctx. with_cache flag_r (drop_bottom (cache_of flag_r ctx)) ctx
    pure true)

-- The body of the loop of `buxn_jit_alloc_reg`
unfoldable pub spill_either : M (Unit {0})
unfolding spill
spill_either = do
  ctx ← get
  done ← spill (op_flag_r ctx.current_opcode)
  if done then skip else (do spill (not (op_flag_r ctx.current_opcode)); skip)

-- The loop: a round spills one cell, so that the cells at hand bound the rounds.
unfoldable pub make_room : ℕ → M (Option ℕ)
make_room zero ctx = some (find_free_reg ctx, ctx)
make_room (suc n) ctx = elim (find_free_reg ctx) [
  | some r ↦ some (some r, ctx)
  | none ↦ elim (spill_either ctx) [ none ↦ none | some (_, ctx') ↦ make_room n ctx' ]
]

-- `buxn_jit_alloc_reg`
unfoldable pub alloc_reg : M ℕ
unfolding make_room spill_either find_free_reg retain_reg
alloc_reg = do
  ctx ← get
  found ← make_room (ctx.wst_cache.len + ctx.rst_cache.len)
  elim found [ none ↦ λ _. none | some r ↦ do retain_reg r; pure r ]

-- `buxn_jit_stack_cache_push`
unfoldable pub push_cell : Bool → Operand → M (Unit {0})
unfolding spill retain_reg
push_cell flag_r value = do
  ctx ← get
  when (leb cache_size (cache_of flag_r ctx).len) (do spill flag_r; skip)
  ctx ← get
  let n = (cache_of flag_r ctx).len
  set_cell flag_r n (record { value = value; need_flush = true })
  set_len flag_r (n + 1)
  retain_reg value.reg
