-- ===== src/Lir.antt =====
-- The calls of the sljit code generator that src/jit.c makes, as data. A compiler is the sequence
-- of the calls made on it; sljit itself is not part of the repository.
use buxn_jit.Prelude.{ℕ, Bool, true, false}

-- The register numbers of src/jit.c: nine scratch registers, then the three saved ones.
abbrev pub r_mem_base : ℕ
r_mem_base = 0

abbrev pub r_mem_offset : ℕ
r_mem_offset = 1

abbrev pub r_tmp : ℕ
r_tmp = 2

abbrev pub r_op_min : ℕ
r_op_min = 3

abbrev pub r_op_max : ℕ
r_op_max = 8

abbrev pub s_vm : ℕ
s_vm = 9

abbrev pub s_wsp : ℕ
s_wsp = 10

abbrev pub s_rsp : ℕ
s_rsp = 11

-- The fields of `buxn_vm_t` whose offsets the generated code uses.
pub data Field : Type 0 where
  ws rs memory device wsp rsp : Field

abbrev pub same_field : Field → Field → Bool
same_field ws ws = true
same_field rs rs = true
same_field memory memory = true
same_field device device = true
same_field wsp wsp = true
same_field rsp rsp = true
same_field _ _ = false

-- Operands: a register, an immediate, the offset of a field as an immediate, the byte at
-- `BUXN_JIT_MEM()`, and a byte field of the VM behind its base register.
pub data Place : Type 0 where
  reg : ℕ → Place
  imm : ℕ → Place
  offset_of : Field → Place
  mem : Place
  vm_byte : Field → Place

pub data Op1 : Type 0 where
  mov mov_u8 mov_s8 mov_u16 mov32 mov_p rev_u16 : Op1

pub data Op2 : Type 0 where
  add sub mul shl lshr and or xor : Op2

-- Flag-setting operations without a result.
pub data Op2u : Type 0 where
  sub_z sub_greater sub_less and_z : Op2u

pub data Cond : Type 0 where
  always equal not_equal greater less is_zero : Cond

-- The C functions that generated code calls.
pub data Helper : Type 0 where
  dei dei2 deo deo2 translate_jump_addr : Helper

-- Jumps and labels carry the number under which the compiler knows them.
pub data Instr : Type 0 where
  op0_div : Instr
  op1 : Op1 → Place → Place → Instr
  op2 : Op2 → ℕ → Place → Place → Instr
  op2u : Op2u → Place → Place → Instr
  op_flags : Cond → ℕ → Instr
  load_u16 : ℕ → Instr
  cmp : Cond → Bool → Place → Place → ℕ → Instr
  jump : Cond → Bool → ℕ → Instr
  call : Bool → ℕ → Instr
  icall : Helper → Instr
  icall_reg : ℕ → Instr
  label : ℕ → Instr
  set_label : ℕ → ℕ → Instr
  enter : Bool → Instr
  ret : Place → Instr
