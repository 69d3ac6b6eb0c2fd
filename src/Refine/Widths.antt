-- ===== src/Refine/Widths.antt =====
-- The results of the operations on words, in the width of an opcode, are those of the instruction set.
use buxn_jit.Prelude.{
  ℕ, ◌+◌, ◌-◌, ◌*◌, ◌/◌, ◌%◌, ◌^◌, ◌<◌, ◌≡◌, ◌∙◌, Bool, true, false, arith, bit_and, bit_or,
  bit_xor,
}
use buxn_jit.Prelude.Bits.{bit_and-lt, bit_or-lt, bit_xor-lt, bit_and_four}
use buxn_jit.Lir
use buxn_jit.Micro.Stack.{width}
use buxn_jit.Micro.Memory.{addr_mask}
use buxn_jit.Opcodes.Fold.{add_lem, sub_lem, mul_lem, masked}
use buxn_jit.Machine.{binary}

narrow : (two : Bool) (n : ℕ) → n % 2 ^ 64 % width two ≡ n % width two
narrow true n = omega arith
narrow false n = omega arith

-- The masked results of the operations on words are those of the instruction set.
pub add-width :
    (two : Bool) (b a : ℕ)
    → b < width two
    → a < width two
    → binary Lir.and (binary Lir.add a b) (addr_mask two) ≡ (a + b) % width two
add-width two b a hb ha = (add_lem two a b).0

pub sub-width :
    (two : Bool) (b a : ℕ)
    → b < width two
    → a < width two
    → binary Lir.and (binary Lir.sub a b) (addr_mask two) ≡ (a + width two - b) % width two
sub-width two b a hb ha = (sub_lem two a b hb).0

pub mul-width :
    (two : Bool) (b a : ℕ)
    → b < width two
    → a < width two
    → binary Lir.and (binary Lir.mul a b) (addr_mask two) ≡ a * b % width two
mul-width two b a hb ha = (mul_lem two a b).0

pub mod-width : (two : Bool) (n : ℕ) → n % width two < width two
mod-width true n = omega arith
mod-width false n = omega arith

-- The width is a power of two.
pub and-width : (two : Bool) (b a : ℕ) → b < width two → a < width two → bit_and a b < width two
and-width true b a hb ha = bit_and-lt 16 a b ha hb
and-width false b a hb ha = bit_and-lt 8 a b ha hb

pub or-width : (two : Bool) (b a : ℕ) → b < width two → a < width two → bit_or a b < width two
or-width true b a hb ha = bit_or-lt 16 a b ha hb
or-width false b a hb ha = bit_or-lt 8 a b ha hb

pub xor-width : (two : Bool) (b a : ℕ) → b < width two → a < width two → bit_xor a b < width two
xor-width true b a hb ha = bit_xor-lt 16 a b ha hb
xor-width false b a hb ha = bit_xor-lt 8 a b ha hb

-- The shifts of SFT
pub sft-width :
    (two : Bool) (b a : ℕ)
    → b < 256
    → binary Lir.and
        (binary Lir.shl (binary Lir.lshr a (binary Lir.and b 0x0f)) (binary Lir.lshr b 4))
        (addr_mask two)
      ≡ a / 2 ^ (b % 16) * 2 ^ (b / 16) % width two
sft-width two b a h =
    let low : bit_and b 0x0f ≡ b % 16 = bit_and_four b in
    masked two (binary Lir.shl (binary Lir.lshr a (bit_and b 0x0f)) (b / 2 ^ 4))
    ∙ rw low (narrow two (a / 2 ^ (b % 16) * 2 ^ (b / 16)))
