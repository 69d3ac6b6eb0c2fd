-- ===== src/Compile/Prologue.antt =====
-- src/jit.c, `buxn_jit_compile` up to the loop: the C-compatible entry, the trampoline, the stub for
-- calls that are not linked, and the entry of the block itself. The hooks are left out.
use buxn_jit.Prelude.{ℕ, true, false, none, []}
use buxn_jit.Lir.{
  reg, imm, op1, mov32, mov_p, always, greater, less, call, icall, icall_reg, translate_jump_addr,
  label, set_label, enter, ret, r_mem_base, r_mem_offset,
}
use buxn_jit.Jit.{Jit, Entry}
use buxn_jit.Ctx.{Ctx, Cache, Operand, M, pure, ◌>>=◌, ◌>>◌, modify, emit, fresh_id}
use buxn_jit.Micro.Stack.{value}
use buxn_jit.Micro.Memory.{load_state, save_state}
use buxn_jit.Jump.{emit_cmp, emit_jump}

abbrev zero_operand : Operand
zero_operand = record { semantics = 0; is_short = false; const_value = 0; reg = 0 }

abbrev empty_cache : Cache
empty_cache = record { cells = λ i. record { value = zero_operand; need_flush = false }; len = 0 }

-- The initializer of `ctx`
abbrev pub new_ctx : Jit → (ℕ → ℕ) → Entry → Ctx
new_ctx jit image entry = record {
  jit = jit;
  image = image;
  compiler = entry.compiler;
  code = [];
  finalized = false;
  next_id = 0;
  call_fallback = 0;
  entry_pc = entry.pc;
  pc = entry.pc;
  current_opcode = 0;
  mem_base = none;
  wst = λ i. value 0 0;
  rst = λ i. value 0 0;
  wsp = 0;
  rsp = 0;
  shadow = none;
  wsp_reg = 0;
  rsp_reg = 0;
  reg_ref_counts = λ i. 0;
  wst_cache = empty_cache;
  rst_cache = empty_cache;
}

-- `sljit_emit_label`
abbrev pub emit_label : M ℕ
emit_label = do l ← fresh_id; emit (label l); pure l

-- The trampoline: while a block returns an address of compiled memory, its code is looked up and
-- called. `jit_ptr` is the address of the JIT, `reset_vector` is BUXN_RESET_VECTOR.
unfoldable pub trampoline : ℕ → ℕ → M (Unit {0})
trampoline jit_ptr reset_vector = do
  start ← emit_label
  jmp_brk ← emit_cmp greater false (reg r_mem_base) (imm 0xffff)
  jmp_zero_page ← emit_cmp less false (reg r_mem_base) (imm reset_vector)
  emit (op1 mov32 (reg r_mem_offset) (reg r_mem_base))
  emit (op1 mov_p (reg r_mem_base) (imm jit_ptr))
  emit (icall translate_jump_addr)
  emit (icall_reg r_mem_base)
  back ← emit_jump always false
  emit (set_label back start)
  return ← emit_label
  emit (set_label jmp_brk return)
  emit (set_label jmp_zero_page return)

-- The entry from C, and its call of the block
unfoldable pub c_entry : M ℕ
unfolding load_state
c_entry = do
  emit (enter false)
  load_state
  entry_call ← fresh_id
  emit (call false entry_call)
  pure entry_call

-- The stub that a call goes to which is not linked
unfoldable pub fallback_stub : M (Unit {0})
fallback_stub = do
  fallback ← emit_label
  modify λ ctx. record ctx { call_fallback = fallback }
  emit (enter true)
  emit (ret (imm 0x10000))

-- The head and the body of the block
unfoldable pub block_entry : ℕ → M (ℕ × ℕ)
block_entry entry_call = do
  head ← emit_label
  emit (set_label entry_call head)
  emit (enter true)
  body ← emit_label
  pure (head, body)

-- What precedes the loop; the results are the labels of the head and of the body.
unfoldable pub prologue : ℕ → ℕ → M (ℕ × ℕ)
unfolding save_state c_entry trampoline fallback_stub block_entry
prologue jit_ptr reset_vector = do
  entry_call ← c_entry
  trampoline jit_ptr reset_vector
  save_state
  emit (ret (reg r_mem_base))
  fallback_stub
  block_entry entry_call
