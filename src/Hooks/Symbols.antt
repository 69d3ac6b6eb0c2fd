-- ===== src/Hooks/Symbols.antt =====
-- src/addr_mapping.h: the search for the symbol of an address, from where the last search ended.
use buxn_jit.Prelude.{
  ℕ, ◌+◌, ◌≤◌, ◌≡◌, refl, inl, inr, ◌⊎◌, Bool, true, false, Bool-cases, Option, none, some, List,
  [], ◌∷◌, ◌&&◌, ltb, leb, length, arith, if◌then◌else◌, zero, suc,
}

-- `buxn_dbg_sym_t`, as far as the search reads it
pub record Symbol : Type 0 where
  pub is_opcode : Bool
  pub addr_min : ℕ
  pub addr_max : ℕ

abbrev pub contains : Symbol → ℕ → Bool
contains s address = leb s.addr_min address && leb address s.addr_max

-- The first loop, over the symbols that are left, of which the first is number `index`: what is
-- found, and the number at which the loop stops
unfoldable pub scan : List Symbol → ℕ → ℕ → Option Symbol × ℕ
scan [] address index = (none, index)
scan (s ∷ ss) address index =
    let rest = scan ss address (index + 1) in
    if s.is_opcode
    then if contains s address
      then (some s, index)
      else if ltb address s.addr_min
      then (none, index)
      else rest
    else rest

-- The second loop, over at most `n` symbols. It does not test for the end of the table: `none` where
-- it reads beyond.
unfoldable pub scan_before : List Symbol → ℕ → ℕ → ℕ → Option (Option Symbol × ℕ)
scan_before [] zero address index = some (none, index)
scan_before [] (suc n) address index = none
scan_before (s ∷ ss) zero address index = some (none, index)
scan_before (s ∷ ss) (suc n) address index =
    let rest = scan_before ss n address (index + 1) in
    if s.is_opcode
    then if contains s address
      then some (some s, index)
      else if ltb address s.addr_min
      then some (none, index)
      else rest
    else rest

unfoldable pub drop : List Symbol → ℕ → List Symbol
drop [] n = []
drop (s ∷ ss) zero = s ∷ ss
drop (s ∷ ss) (suc n) = drop ss n

-- The first result, or the search before the hint
abbrev pub or_before : List Symbol → ℕ → ℕ → Option Symbol × ℕ → Option (Option Symbol × ℕ)
or_before symbols address hint (none, index) = scan_before symbols hint address 0
or_before symbols address hint (some s, index) = some (some s, index)

-- What is found and the new hint; `none` where memory beyond the table is read
unfoldable pub find_symbol : List Symbol → ℕ → ℕ → Option (Option Symbol × ℕ)
unfolding scan scan_before drop
find_symbol symbols address hint =
    or_before symbols address hint (scan (drop symbols hint) address hint)

-- The table before a number
unfoldable take : List Symbol → ℕ → List Symbol
take [] n = []
take (s ∷ ss) zero = []
take (s ∷ ss) (suc n) = s ∷ take ss n

-- No opcode of the list starts before `a`.
abbrev pub StartFrom : ℕ → List Symbol → Type 0
StartFrom a [] = Unit {0}
StartFrom a (s ∷ ss) = (s.is_opcode ≡ true → a ≤ s.addr_min) × StartFrom a ss

-- The opcodes are in the order of their first address.
abbrev pub Sorted : List Symbol → Type 0
Sorted [] = Unit {0}
Sorted (s ∷ ss) = (s.is_opcode ≡ true → StartFrom s.addr_min ss) × Sorted ss

abbrev pub In : Symbol → List Symbol → Type 0
In s [] = ⊥
In s (x ∷ xs) = (s ≡ x) ⊎ In s xs

-- No opcode of the list has the address.
abbrev pub NoneAt : ℕ → List Symbol → Type 0
NoneAt address [] = Unit {0}
NoneAt address (s ∷ ss) = (s.is_opcode ≡ true → contains s address ≡ false) × NoneAt address ss

-- What a search over a table says
abbrev pub IsAnswer : ℕ → List Symbol → Option Symbol → Type 0
IsAnswer address symbols none = NoneAt address symbols
IsAnswer address symbols (some s) =
    In s symbols × (s.is_opcode ≡ true) × (contains s address ≡ true)

beyond-NoneAt :
    (a address : ℕ) (ss : List Symbol) → suc address ≤ a → StartFrom a ss → NoneAt address ss
beyond-NoneAt a address [] h f = tt
beyond-NoneAt a address (s ∷ ss) h (f, fs) =
    (λ e. ground (arith, f e), beyond-NoneAt a address ss h fs)

IsAnswer-later :
    (address : ℕ) (s : Symbol) (ss : List Symbol) (r : Option Symbol)
    → (s.is_opcode ≡ true → contains s address ≡ false)
    → IsAnswer address ss r
    → IsAnswer address (s ∷ ss) r
IsAnswer-later address s ss none h answer = (h, answer)
IsAnswer-later address s ss (some x) h (member, op, ok) = (inr member, op, ok)

scan-IsAnswer :
    (ss : List Symbol) (address index : ℕ)
    → Sorted ss
    → IsAnswer address ss (scan ss address index).0
unfolding scan
scan-IsAnswer [] address index h = tt
scan-IsAnswer (s ∷ ss) address index (h, hs) =
    let later = scan-IsAnswer ss address (index + 1) hs in
    elim (Bool-cases s.is_opcode) [
      | inr data_symbol ↦ simp data_symbol (IsAnswer-later address s ss _ (λ e. ground arith) later)
      | inl opcode ↦ elim (Bool-cases (contains s address)) [
        | inl here ↦ simp (opcode, here) (inl refl, refl, refl)
        | inr apart ↦ elim (Bool-cases (ltb address s.addr_min)) [
          | inl before ↦
              simp (opcode, apart, before)
                (λ e. refl, beyond-NoneAt s.addr_min address ss (ground arith) (h opcode))
          | inr after ↦
              simp (opcode, apart, after) (IsAnswer-later address s ss _ (λ e. apart) later)
        ]
      ]
    ]

StartFrom-take : (a n : ℕ) (ss : List Symbol) → StartFrom a ss → StartFrom a (take ss n)
unfolding take
StartFrom-take a n [] f = tt
StartFrom-take a zero (s ∷ ss) f = tt
StartFrom-take a (suc n) (s ∷ ss) (f, fs) = (f, StartFrom-take a n ss fs)

Sorted-take : (ss : List Symbol) (n : ℕ) → Sorted ss → Sorted (take ss n)
unfolding take
Sorted-take [] n h = tt
Sorted-take (s ∷ ss) zero h = tt
Sorted-take (s ∷ ss) (suc n) (h, hs) =
    (λ e. StartFrom-take s.addr_min n ss (h e), Sorted-take ss n hs)

Sorted-drop : (ss : List Symbol) (n : ℕ) → Sorted ss → Sorted (drop ss n)
unfolding drop
Sorted-drop [] n h = tt
Sorted-drop (s ∷ ss) zero h = h
Sorted-drop (s ∷ ss) (suc n) (h, hs) = Sorted-drop ss n hs

In-take : (x : Symbol) (ss : List Symbol) (n : ℕ) → In x (take ss n) → In x ss
unfolding take
In-take x [] n i = elim i [ ]
In-take x (s ∷ ss) zero i = elim i [ ]
In-take x (s ∷ ss) (suc n) (inl e) = inl e
In-take x (s ∷ ss) (suc n) (inr i) = inr (In-take x ss n i)

In-drop : (x : Symbol) (ss : List Symbol) (n : ℕ) → In x (drop ss n) → In x ss
unfolding drop
In-drop x [] n i = elim i [ ]
In-drop x (s ∷ ss) zero i = i
In-drop x (s ∷ ss) (suc n) i = inr (In-drop x ss n i)

NoneAt-split :
    (address : ℕ) (ss : List Symbol) (n : ℕ)
    → NoneAt address (take ss n)
    → NoneAt address (drop ss n)
    → NoneAt address ss
unfolding take drop
NoneAt-split address [] n before after = tt
NoneAt-split address (s ∷ ss) zero before after = after
NoneAt-split address (s ∷ ss) (suc n) (here, before) after =
    (here, NoneAt-split address ss n before after)

-- Within the table the second loop is the first one, on the symbols before the number.
scan_before-take :
    (ss : List Symbol) (n address index : ℕ)
    → n ≤ length ss
    → scan_before ss n address index ≡ some (scan (take ss n) address index)
unfolding scan scan_before take
scan_before-take [] zero address index h = refl
scan_before-take [] (suc n) address index h = absurd (omega arith)
scan_before-take (s ∷ ss) zero address index h = refl
scan_before-take (s ∷ ss) (suc n) address index h =
    ground (arith, scan_before-take ss n address (index + 1) (omega arith))

-- What the two loops make of a hint within the table
abbrev searched : List Symbol → ℕ → ℕ → Option Symbol × ℕ → Option Symbol × ℕ
searched symbols address hint (none, index) = scan (take symbols hint) address 0
searched symbols address hint (some s, index) = (some s, index)

or_before-searched :
    (symbols : List Symbol) (address hint : ℕ) (r : Option Symbol × ℕ)
    → hint ≤ length symbols
    → or_before symbols address hint r ≡ some (searched symbols address hint r)
or_before-searched symbols address hint (none, index) h = scan_before-take symbols hint address 0 h
or_before-searched symbols address hint (some s, index) h = refl

-- The second search completes the first.
searched-IsAnswer :
    (symbols : List Symbol) (address hint : ℕ) (r : Option Symbol × ℕ)
    → IsAnswer address (drop symbols hint) r.0
    → IsAnswer address (take symbols hint) (scan (take symbols hint) address 0).0
    → IsAnswer address symbols (searched symbols address hint r).0
searched-IsAnswer symbols address hint (some s, index) (member, op, ok) before =
    (In-drop s symbols hint member, op, ok)
searched-IsAnswer symbols address hint (none, index) after before =
    joined symbols address hint (scan (take symbols hint) address 0).0 after before
  where
    joined :
        (symbols : List Symbol) (address hint : ℕ) (r : Option Symbol)
        → NoneAt address (drop symbols hint)
        → IsAnswer address (take symbols hint) r
        → IsAnswer address symbols r
    joined symbols address hint none after before = NoneAt-split address symbols hint before after
    joined symbols address hint (some s) after (member, op, ok) =
        (In-take s symbols hint member, op, ok)

-- In a table whose opcodes are in the order of their first address, from a hint that is not beyond
-- its end, the search stays within the table, finds an opcode with the address where there is one,
-- and finds nothing only where there is none.
pub find_symbol_lem :
    (symbols : List Symbol) (address hint : ℕ)
    → Sorted symbols
    → hint ≤ length symbols
    → (r : Option Symbol × ℕ) × (find_symbol symbols address hint ≡ some r)
      × IsAnswer address symbols r.0
unfolding find_symbol
find_symbol_lem symbols address hint sorted h =
    let first = scan (drop symbols hint) address hint in
    (
      searched symbols address hint first,
      or_before-searched symbols address hint first h,
      searched-IsAnswer symbols address hint first
          (scan-IsAnswer (drop symbols hint) address hint (Sorted-drop symbols hint sorted))
          (scan-IsAnswer (take symbols hint) address 0 (Sorted-take symbols hint sorted)),
    )

scan-length : (ss : List Symbol) (address index : ℕ) → (scan ss address index).1 ≤ index + length ss
unfolding scan
scan-length [] address index = omega arith
scan-length (s ∷ ss) address index = ground (arith, scan-length ss address (index + 1))

length-take : (ss : List Symbol) (n : ℕ) → length (take ss n) ≤ n
unfolding take
length-take [] n = omega arith
length-take (s ∷ ss) zero = omega arith
length-take (s ∷ ss) (suc n) = omega (arith, length-take ss n)

length-drop : (ss : List Symbol) (n : ℕ) → n ≤ length ss → n + length (drop ss n) ≤ length ss
unfolding drop
length-drop [] n h = omega arith
length-drop (s ∷ ss) zero h = omega arith
length-drop (s ∷ ss) (suc n) h = omega (arith, length-drop ss n (omega arith))

searched-length :
    (symbols : List Symbol) (address hint : ℕ) (r : Option Symbol × ℕ)
    → hint ≤ length symbols
    → r.1 ≤ length symbols
    → (searched symbols address hint r).1 ≤ length symbols
searched-length symbols address hint (some s, index) h k = k
searched-length symbols address hint (none, index) h k =
    omega (arith, scan-length (take symbols hint) address 0, length-take symbols hint)

-- From a hint that is not beyond the end of the table, the search stays within the table, and the
-- new hint is not beyond its end either.
pub find_symbol-hint :
    (symbols : List Symbol) (address hint : ℕ)
    → hint ≤ length symbols
    → (r : Option Symbol × ℕ) × (find_symbol symbols address hint ≡ some r) × (r.1 ≤ length symbols)
unfolding find_symbol
find_symbol-hint symbols address hint h =
    let first = scan (drop symbols hint) address hint in
    (
      searched symbols address hint first,
      or_before-searched symbols address hint first h,
      searched-length symbols address hint first h
          (omega (arith, scan-length (drop symbols hint) address hint, length-drop symbols hint h)),
    )
