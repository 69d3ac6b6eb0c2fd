-- ===== src/Regs/Flags.antt =====
-- src/jit.c: the mode flags of every opcode.
use buxn_jit.Prelude.{
  ℕ, ◌/◌, ◌%◌, ◌<◌, ◌≡◌, ◌==◌, ◌&&◌, ◌||◌, not, leb, Bool, check_below_lem, refl, arith, true,
  false,
}
use buxn_jit.Prelude.{check_below}
use buxn_jit.Regs.{op_flag_2, op_flag_k, op_flag_r}

-- The opcodes below 0x80 whose low five bits are 0 are BRK and the three immediate jumps; from 0x80
-- on they are the literals.
abbrev pub has_mode : ℕ → Bool
has_mode opcode = not (opcode % 32 == 0)

abbrev same : Bool → Bool → Bool
same true b = b
same false b = not b

abbrev flags_agree : ℕ → Bool
flags_agree opcode =
    same (op_flag_2 opcode) (opcode / 32 % 2 == 1 && (has_mode opcode || leb 128 opcode))
    && same (op_flag_r opcode) (opcode / 64 % 2 == 1 && (has_mode opcode || leb 128 opcode))
    && same (op_flag_k opcode) (leb 128 opcode && has_mode opcode)

all_agree : check_below flags_agree 256 ≡ true
unfolding check_below op_flag_2 op_flag_k op_flag_r
all_agree = refl

-- The three mode flags of an opcode byte are those of the instruction set: bits 5, 6 and 7, none
-- for BRK and the immediate jumps, and no keep flag for the literals, whose bit 7 is part of the
-- opcode.
pub op_flags_lem :
    (opcode : ℕ)
    → opcode < 256
    → (op_flag_2 opcode ≡ (opcode / 32 % 2 == 1 && (has_mode opcode || leb 128 opcode)))
      × (op_flag_r opcode ≡ (opcode / 64 % 2 == 1 && (has_mode opcode || leb 128 opcode)))
      × (op_flag_k opcode ≡ (leb 128 opcode && has_mode opcode))
op_flags_lem opcode h =
    let all = check_below_lem flags_agree 256 opcode h all_agree in ground (arith, all)
