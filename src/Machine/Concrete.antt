-- ===== src/Machine/Concrete.antt =====
-- A machine that meets what `Machine` asks for: registers and cells as functions, the fields told
-- apart by the base register.
use buxn_jit.Prelude.{
  ℕ, ◌+◌, ◌%◌, ◌^◌, ◌≡◌, refl, ◌&&◌, ◌==◌, if◌then◌else◌, Bool, true, false, arith,
}
use buxn_jit.Lir.{
  Field, same_field, ws, rs, memory, device, wsp, rsp, Place, reg, mem, mov_u8, Instr, op1, op2,
  Cond, op2u, op_flags, r_mem_base, r_mem_offset,
}
use buxn_jit.Machine.{unary, binary, verdict, place, Machine}

pub record State : Type 0 where
  pub regs : ℕ → ℕ
  pub cells : Field → ℕ → ℕ
  pub flags : Cond → Bool

abbrev pub offset : Field → ℕ
offset ws = 0x100
offset rs = 0x200
offset device = 0x300
offset wsp = 0x400
offset rsp = 0x401
offset memory = 0x1000

abbrev pub field_at : ℕ → Field
field_at a =
    if a == 0x100
    then ws
    else if a == 0x200
    then rs
    else if a == 0x300
    then device
    else if a == 0x400
    then wsp
    else if a == 0x401
    then rsp
    else memory

-- A cell is a byte.
abbrev pub cell : State → Field → ℕ → ℕ
cell s f i = s.cells f i % 2 ^ 8

abbrev pub loaded : State → ℕ
loaded s = cell s (field_at (s.regs r_mem_base)) (s.regs r_mem_offset)

abbrev pub value : State → Place → ℕ
value s p = place s.regs (loaded s) offset (cell s) p

abbrev pub assign : State → ℕ → ℕ → State
assign s d v = record s { regs = λ x. if d == x then v else s.regs x }

-- A call that the interface says nothing of leaves the state alone.
abbrev pub step : Instr → State → State
step (op1 o (reg d) p) s = assign s d (unary o (value s p))
step (op1 o mem p) s = record s {
  cells = λ g j.
      if same_field (field_at (s.regs r_mem_base)) g && (s.regs r_mem_offset == j)
      then value s p
      else s.cells g j;
}
step (op2 o d p q) s = assign s d (binary o (value s p) (value s q))
step (op2u o p q) s = record s { flags = λ c. verdict c (value s p) (value s q) }
step (op_flags c d) s = assign s d (if s.flags c then 1 else 0)
step _ s = s

pub loaded_cell :
    (s : State) (f : Field)
    → s.regs r_mem_base ≡ (0 + offset f) % 2 ^ 64
    → loaded s ≡ cell s f (s.regs r_mem_offset)
loaded_cell s ws e = rw (e, loaded)
loaded_cell s rs e = rw (e, loaded)
loaded_cell s memory e = rw (e, loaded)
loaded_cell s device e = rw (e, loaded)
loaded_cell s wsp e = rw (e, loaded)
loaded_cell s rsp e = rw (e, loaded)

byte_either :
    (b : Bool) (v c : ℕ) → (if b then v else c) % 2 ^ 8 ≡ (if b then v % 2 ^ 8 else c % 2 ^ 8)
byte_either true v c = refl
byte_either false v c = refl

pub cell_store :
    (r : ℕ) (s : State) (f : Field)
    → s.regs r_mem_base ≡ (0 + offset f) % 2 ^ 64
    → (g : Field) (j : ℕ)
    → cell (step (op1 mov_u8 mem (reg r)) s) g j
      ≡ (if same_field f g && (s.regs r_mem_offset == j) then s.regs r % 2 ^ 8 else cell s g j)
cell_store r s ws e g j = rw e (byte_either _ (s.regs r) (s.cells g j))
cell_store r s rs e g j = rw e (byte_either _ (s.regs r) (s.cells g j))
cell_store r s memory e g j = rw e (byte_either _ (s.regs r) (s.cells g j))
cell_store r s device e g j = rw e (byte_either _ (s.regs r) (s.cells g j))
cell_store r s wsp e g j = rw e (byte_either _ (s.regs r) (s.cells g j))
cell_store r s rsp e g j = rw e (byte_either _ (s.regs r) (s.cells g j))

abbrev pub concrete : Machine
concrete = record {
  State = State;
  step = step;
  reg_of = λ s. s.regs;
  cell = cell;
  cell_byte = λ s f i. omega arith;
  loaded = loaded;
  vm = 0;
  offset = offset;
  loaded_cell = λ s f e h. loaded_cell s f e;
  reg_op1 = λ o d p s x. refl;
  cell_op1 = λ o d p s f i. refl;
  reg_op2 = λ o d p q s x. refl;
  cell_op2 = λ o d p q s f i. refl;
  reg_flags = λ o c d p q s x h. refl;
  cell_flags = λ o c d p q s f i. refl;
  reg_store = λ r s x. refl;
  cell_store = λ r s f e h. cell_store r s f e;
}
