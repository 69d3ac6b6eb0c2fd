-- ===== src/Cli/SymFile.antt =====
-- src/cli.c, `boot`: the reader of the symbol file, a sequence of entries of two bytes of address and
-- a name that ends in 0. Its three nested reads are a state, so that each byte is read once.
use buxn_jit.Prelude.{
  append_assoc, append-nil, ℕ, ◌*◌, ◌/◌, ◌%◌, ◌^◌, ◌<◌, ◌≡◌, refl, sym, ◌∙◌, ap, ◌==◌, true, false,
  List, [], ◌∷◌, ◌++◌, bit_or, arith,
}
use buxn_jit.Hooks.LabelMap.{Label}
use buxn_jit.Prelude.Bits.{bit_or-join}

-- What has been read of an entry
pub data Reading : Type 0 where
  before : Reading
  after_hi : ℕ → Reading
  in_name : ℕ → ℕ → List ℕ → Reading

abbrev pub sym_entry : ℕ → ℕ → List ℕ → Label
sym_entry hi lo buf = record { addr = bit_or (hi * 2 ^ 8) lo; name = buf }

-- The loop; at the end of the file an entry that is not complete is dropped.
unfoldable pub read_syms : Reading → List ℕ → List Label
read_syms reading [] = []
read_syms before (hi ∷ bytes) = read_syms (after_hi hi) bytes
read_syms (after_hi hi) (lo ∷ bytes) = read_syms (in_name hi lo []) bytes
read_syms (in_name hi lo buf) (ch ∷ bytes) = elim (ch == 0) [
  | true ↦ sym_entry hi lo buf ∷ read_syms before bytes
  | false ↦ read_syms (in_name hi lo (buf ++ (ch ∷ []))) bytes
]

-- The layout of the file
unfoldable pub print_syms : List Label → List ℕ → List ℕ
print_syms [] tail = tail
print_syms (s ∷ syms) tail =
    (s.addr / 2 ^ 8) ∷ (s.addr % 2 ^ 8) ∷ (s.name ++ (0 ∷ print_syms syms tail))

-- No byte of a name is 0.
unfoldable pub NonZero : List ℕ → Type 0
NonZero [] = Unit {0}
NonZero (ch ∷ name) = ((ch == 0) ≡ false) × NonZero name

unfoldable pub WellFormed : List Label → Type 0
WellFormed [] = Unit {0}
WellFormed (s ∷ syms) = (s.addr < 2 ^ 16) × NonZero s.name × WellFormed syms

-- A file that ends within an entry
unfoldable pub CutOff : List ℕ → Type 0
CutOff [] = Unit {0}
CutOff (hi ∷ []) = Unit {0}
CutOff (hi ∷ lo ∷ name) = NonZero name

read-char :
    (hi lo : ℕ) (buf : List ℕ) (ch : ℕ) (bytes : List ℕ)
    → (ch == 0) ≡ false
    → read_syms (in_name hi lo buf) (ch ∷ bytes)
      ≡ read_syms (in_name hi lo (buf ++ (ch ∷ []))) bytes
unfolding read_syms
read-char hi lo buf ch bytes e =
    ap
      (λ b. elim b [
        | true ↦ sym_entry hi lo buf ∷ read_syms before bytes
        | false ↦ read_syms (in_name hi lo (buf ++ (ch ∷ []))) bytes
      ])
      e

-- The bytes of a name go to the buffer, up to its 0.
read-name :
    (hi lo : ℕ) (buf name rest : List ℕ)
    → NonZero name
    → read_syms (in_name hi lo buf) (name ++ (0 ∷ rest))
      ≡ sym_entry hi lo (buf ++ name) ∷ read_syms before rest
unfolding read_syms NonZero
read-name hi lo buf [] rest h =
    ap (λ l. sym_entry hi lo l ∷ read_syms before rest) (sym (append-nil buf))
read-name hi lo buf (ch ∷ name) rest (nonzero, h) =
    read-char hi lo buf ch (name ++ (0 ∷ rest)) nonzero
    ∙ (read-name hi lo (buf ++ (ch ∷ [])) name rest h
        ∙ ap (λ l. sym_entry hi lo l ∷ read_syms before rest) (append_assoc buf (ch ∷ []) name))

read-cut_name :
    (hi lo : ℕ) (buf name : List ℕ) → NonZero name → read_syms (in_name hi lo buf) name ≡ []
unfolding read_syms NonZero
read-cut_name hi lo buf [] h = refl
read-cut_name hi lo buf (ch ∷ name) (nonzero, h) =
    read-char hi lo buf ch name nonzero ∙ read-cut_name hi lo (buf ++ (ch ∷ [])) name h

read-CutOff : (tail : List ℕ) → CutOff tail → read_syms before tail ≡ []
unfolding read_syms CutOff
read-CutOff [] c = refl
read-CutOff (hi ∷ []) c = refl
read-CutOff (hi ∷ lo ∷ name) c = read-cut_name hi lo [] name c

-- Labels with addresses of sixteen bits and names without 0 are read back from their file, in
-- order, and what follows them is dropped if it ends within an entry.
pub read-print :
    (syms : List Label) (tail : List ℕ)
    → WellFormed syms
    → CutOff tail
    → read_syms before (print_syms syms tail) ≡ syms
unfolding read_syms print_syms WellFormed
read-print [] tail w c = read-CutOff tail c
read-print (s ∷ syms) tail (short, nonzero, w) c =
    read-name (s.addr / 2 ^ 8) (s.addr % 2 ^ 8) [] s.name (print_syms syms tail) nonzero
    ∙ (ap (λ l. sym_entry (s.addr / 2 ^ 8) (s.addr % 2 ^ 8) s.name ∷ l) (read-print syms tail w c)
        ∙ ap (λ a. record { addr = a; name = s.name } ∷ syms) (joined s.addr short))
  where
    joined : (a : ℕ) → a < 2 ^ 16 → bit_or (a / 2 ^ 8 * 2 ^ 8) (a % 2 ^ 8) ≡ a
    joined a h =
        bit_or-join 8 (a / 2 ^ 8) (a % 2 ^ 8) (a / 2 ^ 8 * 2 ^ 8) refl (omega arith) ∙ omega arith
