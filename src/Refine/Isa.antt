-- ===== src/Refine/Isa.antt =====
-- What the instruction set says of the opcodes that work on one stack, on the numbers that they take
-- from it and put back.
use buxn_jit.Prelude.{
  ℕ, ◌+◌, ◌-◌, ◌*◌, ◌/◌, ◌^◌, ◌%◌, ◌<◌, Bool, true, false, Option, none, some, List, [], ◌∷◌, ◌++◌,
  bit_and, bit_or, bit_xor, not, ltb, ◌==◌, if◌then◌else◌,
}
use buxn_jit.Micro.Stack.{width}
use buxn_jit.Opcodes.Control.{
  Opcode, pop, nip, swp, rot, dup, ovr, equ, neq, gth, lth, add, sub, mul, and, ora, eor, sft, inc,
}
use buxn_jit.Refine.Push.{item_bytes}

abbrev pub truth : Bool → ℕ
truth b = if b then 1 else 0

-- The size of the results, and the results, from the operands; the top of the stack comes first.
abbrev pub perform : Opcode → Bool → List ℕ → Option (Bool × List ℕ)
perform pop two (a ∷ []) = some (two, [])
perform nip two (b ∷ a ∷ []) = some (two, b ∷ [])
perform swp two (b ∷ a ∷ []) = some (two, a ∷ b ∷ [])
perform rot two (c ∷ b ∷ a ∷ []) = some (two, a ∷ c ∷ b ∷ [])
perform dup two (a ∷ []) = some (two, a ∷ a ∷ [])
perform ovr two (b ∷ a ∷ []) = some (two, a ∷ b ∷ a ∷ [])
perform equ two (b ∷ a ∷ []) = some (false, truth (a == b) ∷ [])
perform neq two (b ∷ a ∷ []) = some (false, truth (not (a == b)) ∷ [])
perform gth two (b ∷ a ∷ []) = some (false, truth (ltb b a) ∷ [])
perform lth two (b ∷ a ∷ []) = some (false, truth (ltb a b) ∷ [])
perform add two (b ∷ a ∷ []) = some (two, (a + b) % width two ∷ [])
perform sub two (b ∷ a ∷ []) = some (two, (a + width two - b) % width two ∷ [])
perform mul two (b ∷ a ∷ []) = some (two, a * b % width two ∷ [])
perform and two (b ∷ a ∷ []) = some (two, bit_and a b ∷ [])
perform ora two (b ∷ a ∷ []) = some (two, bit_or a b ∷ [])
perform eor two (b ∷ a ∷ []) = some (two, bit_xor a b ∷ [])
perform sft two (b ∷ a ∷ []) = some (two, a / 2 ^ (b % 16) * 2 ^ (b / 16) % width two ∷ [])
perform inc two (a ∷ []) = some (two, (a + 1) % width two ∷ [])
perform op two values = none

-- The sizes of the operands of these opcodes; none for the others
abbrev pub operands : Opcode → Bool → List Bool
operands pop two = two ∷ []
operands dup two = two ∷ []
operands inc two = two ∷ []
operands nip two = two ∷ two ∷ []
operands swp two = two ∷ two ∷ []
operands ovr two = two ∷ two ∷ []
operands equ two = two ∷ two ∷ []
operands neq two = two ∷ two ∷ []
operands gth two = two ∷ two ∷ []
operands lth two = two ∷ two ∷ []
operands add two = two ∷ two ∷ []
operands sub two = two ∷ two ∷ []
operands mul two = two ∷ two ∷ []
operands and two = two ∷ two ∷ []
operands ora two = two ∷ two ∷ []
operands eor two = two ∷ two ∷ []
operands sft two = false ∷ two ∷ []
operands rot two = two ∷ two ∷ two ∷ []
operands op two = []

-- INC works in the register of its operand.
abbrev pub in_place : Opcode → Bool
in_place inc = true
in_place op = false

-- By how many items they make the stack longer
abbrev pub growth : Opcode → ℕ
growth dup = 1
growth ovr = 1
growth op = 0

-- The bytes of items of one size, the top first
abbrev pub items : Bool → List ℕ → List ℕ
items two [] = []
items two (v ∷ vs) = item_bytes two v ++ items two vs

-- The bytes of items of several sizes
abbrev pub items_of : List Bool → List ℕ → List ℕ
items_of (s ∷ ss) (v ∷ vs) = item_bytes s v ++ items_of ss vs
items_of ss vs = []

-- There is a number for each size, and it is within that size.
abbrev pub Within : List Bool → List ℕ → Type 0
Within (s ∷ ss) (v ∷ vs) = (v < width s) × Within ss vs
Within [] [] = Unit {0}
Within ss vs = ⊥
