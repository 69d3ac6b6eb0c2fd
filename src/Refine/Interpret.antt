-- ===== src/Refine/Interpret.antt =====
-- What the instruction set says of a run of opcodes of one mode, on the bytes of one stack.
use buxn_jit.Prelude.{
  ℕ, ◌+◌, ◌*◌, ◌/◌, ◌^◌, ◌%◌, ◌<◌, ◌≤◌, ◌≡◌, ◌≢◌, refl, ap, Bool, true, false, Option, none, some,
  List, [], ◌∷◌, ◌++◌, arith, length, leb, if◌then◌else◌, append_assoc,
}
use buxn_jit.Micro.Stack.{width, size}
use buxn_jit.Opcodes.Control.{Opcode}
use buxn_jit.Refine.Push.{item_bytes}
use buxn_jit.Refine.Side.{total}
use buxn_jit.Refine.Isa.{perform, operands, growth, items, items_of, Within}

abbrev pub take_number : Bool → List ℕ → Option (ℕ × List ℕ)
take_number false (b ∷ l) = some (b, l)
take_number true (lo ∷ hi ∷ l) = some (hi * 2 ^ 8 + lo, l)
take_number two l = none

abbrev pub with_number : ℕ → Option (List ℕ × List ℕ) → Option (List ℕ × List ℕ)
with_number v none = none
with_number v (some (vs, rest)) = some (v ∷ vs, rest)

-- Numbers of the sizes, off the top of a stack
abbrev pub take_numbers : List Bool → List ℕ → Option (List ℕ × List ℕ)
take_numbers [] l = some ([], l)
take_numbers (s ∷ ss) l = elim (take_number s l) [
  | none ↦ none
  | some (v, rest) ↦ with_number v (take_numbers ss rest)
]

-- Results put back; there are none where their size is not that of the opcode.
abbrev pub put_back : Bool → Option (Bool × List ℕ) → List ℕ → Option (List ℕ)
put_back true (some (true, vs)) rest = some (items true vs ++ rest)
put_back false (some (false, vs)) rest = some (items false vs ++ rest)
put_back two r rest = none

-- The stack after an opcode, if the stack has its operands
abbrev pub interpret : Opcode → Bool → List ℕ → Option (List ℕ)
interpret op two l = elim (take_numbers (operands op two) l) [
  | none ↦ none
  | some (values, rest) ↦ put_back two (perform op two values) rest
]

-- The stack after a run of opcodes, if it neither underflows nor overflows
abbrev pub interpret_all : List Opcode → Bool → List ℕ → Option (List ℕ)
interpret_all [] two l = some l
interpret_all (op ∷ ops) two l =
    if leb (growth op * size two + length l) 256
    then (elim (interpret op two l) [ none ↦ none | some l' ↦ interpret_all ops two l' ])
    else none

take_number-item :
    (two : Bool) (v : ℕ) (l : List ℕ)
    → v < width two
    → take_number two (item_bytes two v ++ l) ≡ some (v, l)
take_number-item true v l h =
    let whole : v / 2 ^ 8 % 2 ^ 8 * 2 ^ 8 + v % 2 ^ 8 ≡ v = omega (arith, h) in
    ap (λ n. some (n, l)) whole
take_number-item false v l h =
    let whole : v % 2 ^ 8 ≡ v = omega (arith, h) in ap (λ n. some (n, l)) whole

take_numbers-items :
    (ss : List Bool) (vs l : List ℕ)
    → Within ss vs
    → take_numbers ss (items_of ss vs ++ l) ≡ some (vs, l)
take_numbers-items [] [] l h = refl
take_numbers-items (s ∷ ss) (v ∷ vs) l (fits, h) = rw (
  append_assoc (item_bytes s v) (items_of ss vs) l,
  take_numbers,
  take_number-item s v (items_of ss vs ++ l) fits,
  take_numbers-items ss vs l h,
)
take_numbers-items [] (v ∷ vs) l h = absurd h
take_numbers-items (s ∷ ss) [] l h = absurd h

pub interpret-items :
    (op : Opcode) (two : Bool) (vs rest : List ℕ)
    → Within (operands op two) vs
    → interpret op two (items_of (operands op two) vs ++ rest)
      ≡ put_back two (perform op two vs) rest
interpret-items op two vs rest h = rw (interpret, take_numbers-items (operands op two) vs rest h)

-- Results that are put back have the opcode's size.
pub put_back-items :
    (two short : Bool) (vs rest l : List ℕ)
    → put_back two (some (short, vs)) rest ≡ some l
    → (short ≡ two) × (items short vs ++ rest ≡ l)
put_back-items true true vs rest l e = (refl, cc)
put_back-items false false vs rest l e = (refl, cc)
put_back-items true false vs rest l e = cc
put_back-items false true vs rest l e = cc

take_numbers-le : (ss : List Bool) (l : List ℕ) → take_numbers ss l ≢ none → total ss ≤ length l
take_numbers-le [] l h = omega arith
take_numbers-le (false ∷ ss) [] h = absurd (h refl)
take_numbers-le (false ∷ ss) (b ∷ l) h = omega (arith, take_numbers-le ss l (λ e. h (rw e)))
take_numbers-le (true ∷ ss) [] h = absurd (h refl)
take_numbers-le (true ∷ ss) (b ∷ []) h = absurd (h refl)
take_numbers-le (true ∷ ss) (b ∷ b' ∷ l) h = omega (arith, take_numbers-le ss l (λ e. h (rw e)))

-- An opcode that has a result finds its operands.
pub interpret-le :
    (op : Opcode) (two : Bool) (l l' : List ℕ)
    → interpret op two l ≡ some l'
    → total (operands op two) ≤ length l
interpret-le op two l l' e =
    take_numbers-le (operands op two) l λ n. nothing_there (rw (interpret, n) at e)
  where
    nothing_there : ◌≡◌ {A = Option (List ℕ)} none (some l') → ⊥
    nothing_there e = cc
