-- ===== src/Machine.antt =====
-- What the verification relies on of sljit and of the VM's memory layout, neither of which is part
-- of the repository: the effect of the calls in straight-line code on the registers and on memory,
-- on a 64-bit little-endian target.
pub mod Concrete
use buxn_jit.Prelude.{
  ℕ, ◌+◌, ◌-◌, ◌*◌, ◌/◌, ◌%◌, ◌^◌, ◌<◌, ◌≡◌, bit_and, bit_or, bit_xor, ltb, List, [], ◌∷◌, ◌==◌,
  ◌&&◌, not, Bool, true, false, if◌then◌else◌,
}
use buxn_jit.Lir.{
  Field, same_field, ws, rs, memory, device, wsp, rsp, Place, reg, imm, offset_of, mem, vm_byte,
  Op2u, sub_z, sub_greater, sub_less, and_z, Cond, always, equal, not_equal, greater, less, is_zero,
  op2u, op_flags, Op1, mov, mov_u8, mov_s8, mov_u16, mov32, mov_p, rev_u16, Op2, add, sub, mul, shl,
  lshr, and, or, xor, Instr, op1, op2, r_mem_base, r_mem_offset,
}

-- A conversion, on a word of 64 bits
abbrev pub unary : Op1 → ℕ → ℕ
unary mov v = v
unary mov_u8 v = v % 2 ^ 8
unary mov_s8 v = if ltb (v % 2 ^ 8) 128 then v % 2 ^ 8 else 2 ^ 64 - 2 ^ 8 + v % 2 ^ 8
unary mov_u16 v = v % 2 ^ 16
unary mov32 v = v % 2 ^ 32
unary mov_p v = v
unary rev_u16 v = v % 2 ^ 8 * 2 ^ 8 + v / 2 ^ 8 % 2 ^ 8

-- An operation, on words of 64 bits
abbrev pub binary : Op2 → ℕ → ℕ → ℕ
binary add a b = (a + b) % 2 ^ 64
binary sub a b = (a + 2 ^ 64 - b) % 2 ^ 64
binary mul a b = a * b % 2 ^ 64
binary shl a b = a * 2 ^ b % 2 ^ 64
binary lshr a b = a / 2 ^ b
binary and a b = bit_and a b
binary or a b = bit_or a b
binary xor a b = bit_xor a b

-- The conditions that a comparison sets the flags for
abbrev pub sets : Op2u → Cond → Bool
sets sub_z equal = true
sets sub_z not_equal = true
sets sub_greater greater = true
sets sub_less less = true
sets _ _ = false

-- What such a condition says of the two words compared
abbrev pub verdict : Cond → ℕ → ℕ → Bool
verdict equal a b = a == b
verdict not_equal a b = not (a == b)
verdict greater a b = ltb b a
verdict less a b = ltb a b
verdict _ a b = false

-- The bytes of a field
abbrev pub field_size : Field → ℕ
field_size ws = 256
field_size rs = 256
field_size memory = 2 ^ 16
field_size device = 256
field_size wsp = 1
field_size rsp = 1

-- The value of an operand, from the registers, the byte at `BUXN_JIT_MEM()`, the offsets and the
-- cells of the VM
abbrev pub place : (ℕ → ℕ) → ℕ → (Field → ℕ) → (Field → ℕ → ℕ) → Place → ℕ
place regs loaded offset cells (reg r) = regs r
place regs loaded offset cells (imm n) = n
place regs loaded offset cells (offset_of f) = offset f
place regs loaded offset cells mem = loaded
place regs loaded offset cells (vm_byte f) = cells f 0

-- A machine that runs the calls. `cell s f i` is byte `i` of field `f` of the VM at address `vm`, and
-- `loaded s` the byte at the sum of the two memory registers.
pub record Machine : Type 1 where
  pub State : Type 0
  pub step : Instr → State → State
  pub reg_of : State → ℕ → ℕ
  pub cell : State → Field → ℕ → ℕ
  pub loaded : State → ℕ
  pub vm : ℕ
  pub offset : Field → ℕ
  pub cell_byte : (s : State) (f : Field) (i : ℕ) → cell s f i < 2 ^ 8
  pub loaded_cell :
      (s : State) (f : Field)
      → reg_of s r_mem_base ≡ (vm + offset f) % 2 ^ 64
      → reg_of s r_mem_offset < field_size f
      → loaded s ≡ cell s f (reg_of s r_mem_offset)
  pub reg_op1 :
      (o : Op1) (d : ℕ) (p : Place) (s : State) (x : ℕ)
      → reg_of (step (op1 o (reg d) p) s) x
        ≡ (if d == x then unary o (place (reg_of s) (loaded s) offset (cell s) p) else reg_of s x)
  pub cell_op1 :
      (o : Op1) (d : ℕ) (p : Place) (s : State) (f : Field) (i : ℕ)
      → cell (step (op1 o (reg d) p) s) f i ≡ cell s f i
  pub reg_op2 :
      (o : Op2) (d : ℕ) (p q : Place) (s : State) (x : ℕ)
      → reg_of (step (op2 o d p q) s) x ≡ (
          if d == x
          then binary o
              (place (reg_of s) (loaded s) offset (cell s) p)
              (place (reg_of s) (loaded s) offset (cell s) q)
          else reg_of s x)
  pub cell_op2 :
      (o : Op2) (d : ℕ) (p q : Place) (s : State) (f : Field) (i : ℕ)
      → cell (step (op2 o d p q) s) f i ≡ cell s f i
  pub reg_flags :
      (o : Op2u) (c : Cond) (d : ℕ) (p q : Place) (s : State) (x : ℕ)
      → sets o c ≡ true
      → reg_of (step (op_flags c d) (step (op2u o p q) s)) x ≡ (
          if d == x
          then (if verdict c
                (place (reg_of s) (loaded s) offset (cell s) p)
                (place (reg_of s) (loaded s) offset (cell s) q)
              then 1
              else 0)
          else reg_of s x)
  pub cell_flags :
      (o : Op2u) (c : Cond) (d : ℕ) (p q : Place) (s : State) (f : Field) (i : ℕ)
      → cell (step (op_flags c d) (step (op2u o p q) s)) f i ≡ cell s f i
  pub reg_store :
      (r : ℕ) (s : State) (x : ℕ) → reg_of (step (op1 mov_u8 mem (reg r)) s) x ≡ reg_of s x
  pub cell_store :
      (r : ℕ) (s : State) (f : Field)
      → reg_of s r_mem_base ≡ (vm + offset f) % 2 ^ 64
      → reg_of s r_mem_offset < field_size f
      → (g : Field) (j : ℕ)
      → cell (step (op1 mov_u8 mem (reg r)) s) g j ≡ (
          if same_field f g && (reg_of s r_mem_offset == j) then reg_of s r % 2 ^ 8 else cell s g j)

-- The state after the calls made on a compiler, the last call first in the list
unfoldable pub exec : (m : Machine) → List Instr → m.State → m.State
exec m [] s = s
exec m (i ∷ code) s = m.step i (exec m code s)
