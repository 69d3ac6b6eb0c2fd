-- ===== src/Opcodes/Fold.antt =====
-- src/jit.c: the constants that ADD, SUB, MUL and SFT compute at compile time, and the value that a
-- relative jump adds to, are those that the emitted operations compute.
use buxn_jit.Prelude.{
  ℕ, ◌+◌, ◌-◌, ◌*◌, ◌/◌, ◌%◌, ◌^◌, ◌<◌, ◌≡◌, ◌∙◌, bit_and, Bool, true, false, arith, refl,
  check_below, check_below_lem, ◌==◌,
}
use buxn_jit.Prelude.Bits.{bit_and_byte, bit_and_short}
use buxn_jit.Ctx.{M}
use buxn_jit.Lir.{Op2, add, sub, mul, shl, lshr, and, mov_s8}
use buxn_jit.Micro.Stack.{width}
use buxn_jit.Micro.Memory.{addr_mask}
use buxn_jit.Opcodes.Arith.{fold_add, fold_sub, fold_mul, fold_sft, jit_binary}
use buxn_jit.Jump.{relative}
use buxn_jit.Machine.{unary, binary}

pub masked : (two : Bool) (v : ℕ) → bit_and v (addr_mask two) ≡ v % width two
masked true v = bit_and_short v
masked false v = bit_and_byte v

fold_width : (two : Bool) (v : ℕ) → v % 2 ^ 64 % width two ≡ v % 2 ^ 16 % width two
fold_width true v = omega arith
fold_width false v = omega arith

-- The masked results of the emitted operations, and the constants in the width of the opcode
pub add_lem :
    (two : Bool) (a b : ℕ)
    → (binary and (binary add a b) (addr_mask two) ≡ (a + b) % width two)
      × (fold_add a b % width two ≡ (a + b) % width two)
add_lem true a b = (masked true (binary add a b) ∙ omega arith, omega arith)
add_lem false a b = (masked false (binary add a b) ∙ omega arith, omega arith)

pub sub_lem :
    (two : Bool) (a b : ℕ)
    → b < width two
    → (binary and (binary sub a b) (addr_mask two) ≡ (a + width two - b) % width two)
      × (fold_sub a b % width two ≡ (a + width two - b) % width two)
sub_lem true a b h = (masked true (binary sub a b) ∙ omega (arith, h), omega (arith, h))
sub_lem false a b h = (masked false (binary sub a b) ∙ omega (arith, h), omega (arith, h))

pub mul_lem :
    (two : Bool) (a b : ℕ)
    → (binary and (binary mul a b) (addr_mask two) ≡ a * b % width two)
      × (fold_mul a b % width two ≡ a * b % width two)
mul_lem true a b = (masked true (binary mul a b) ∙ omega arith, omega arith)
mul_lem false a b = (masked false (binary mul a b) ∙ omega arith, omega arith)

-- An opcode on the constants `a` and `b`: its masked emitted operation and its folded constant are
-- both `v`, in the width of the opcode.
pub record Folds (two : Bool) (a b : ℕ) (code : M (Unit {0})) (v : ℕ) : Type 0 where
  pub call : Op2
  pub fold : ℕ → ℕ → ℕ
  pub is_binary : code ≡ jit_binary call fold
  pub emitted : binary and (binary call a b) (addr_mask two) ≡ v
  pub folded : fold a b % width two ≡ v

-- The target that a relative jump from a sixteen-bit address is linked to has sixteen bits, and
-- is, in sixteen bits, the sum in the register.
pub relative-binary :
    (pc offset : ℕ)
    → pc < 2 ^ 16
    → (relative pc offset < 2 ^ 16)
      × (binary add (unary mov_s8 offset) pc % 2 ^ 16 ≡ relative pc offset)
unfolding relative
relative-binary pc offset h = (ground arith, ground arith)

high_nibble : check_below (λ b. bit_and b 0xf0 / 2 ^ 4 == b / 2 ^ 4) 256 ≡ true
unfolding check_below
high_nibble = refl

-- The shifts that SFT emits for a byte `b`, masked, make its folded constant.
pub fold_sft-binary :
    (two : Bool) (a b : ℕ)
    → b < 256
    → binary and (binary shl (binary lshr a (binary and b 0x0f)) (binary lshr b 4)) (addr_mask two)
      ≡ fold_sft a b % width two
fold_sft-binary two a b h =
    let same : bit_and b 0xf0 / 2 ^ 4 ≡ b / 2 ^ 4 =
      ground
        (arith, check_below_lem (λ b. bit_and b 0xf0 / 2 ^ 4 == b / 2 ^ 4) 256 b h high_nibble) in
    rw same (
      masked two (binary shl (binary lshr a (binary and b 0x0f)) (binary lshr b 4))
      ∙ fold_width two (a / 2 ^ bit_and b 0x0f * 2 ^ (b / 2 ^ 4)))
