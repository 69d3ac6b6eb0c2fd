-- ===== src/Hooks/LabelMap.antt =====
-- include/buxn/jit/label_map.h: the closest label at or before an address.
use buxn_jit.Prelude.{
  ℕ, ◌≤◌, ◌≡◌, ◌⊎◌, refl, inl, inr, Bool, true, false, Option, none, some, List, [], ◌∷◌, not, ◌&&◌,
  ltb, leb, Bool-cases, ◌==◌, arith, if◌then◌else◌,
}

-- `buxn_label_map_entry_t`, the name by its bytes
pub record Label : Type 0 where
  pub addr : ℕ
  pub name : List ℕ

-- `name_len > 0 && name[0] != '@'`
abbrev pub named : List ℕ → Bool
named [] = false
named (c ∷ name) = not (c == 0x40)

-- The tests that do not depend on the labels before
unfoldable pub eligible : ℕ → Label → Bool
eligible pc l = ltb 0x00ff l.addr && named l.name && leb l.addr pc

abbrev pub closest_addr : Option Label → ℕ
closest_addr none = 0
closest_addr (some l) = l.addr

-- The loop of `buxn_pc_to_label`
unfoldable pub closest_from : ℕ → Option Label → List Label → Option Label
closest_from pc closest [] = closest
closest_from pc closest (l ∷ ls) =
    closest_from pc (if eligible pc l && ltb (closest_addr closest) l.addr then some l else closest)
      ls

unfoldable pub pc_to_label : List Label → ℕ → Option Label
unfolding closest_from
pc_to_label labels pc = closest_from pc none labels

abbrev pub In : Label → List Label → Type 0
In l [] = ⊥
In l (x ∷ xs) = (l ≡ x) ⊎ In l xs

-- No eligible label of the list lies beyond `a`.
abbrev pub NoneBeyond : ℕ → ℕ → List Label → Type 0
NoneBeyond pc a [] = Unit {0}
NoneBeyond pc a (l ∷ ls) = (eligible pc l ≡ true → l.addr ≤ a) × NoneBeyond pc a ls

-- What the result is: the label's own conditions, and how it compares with the others
abbrev pub IsClosest : ℕ → List Label → Option Label → Type 0
IsClosest pc labels none = NoneBeyond pc 0 labels
IsClosest pc labels (some l) = In l labels × (eligible pc l ≡ true) × NoneBeyond pc l.addr labels

eligible_pos : (pc : ℕ) (l : Label) → eligible pc l ≡ true → l.addr ≤ 0 → ⊥
unfolding eligible
eligible_pos pc l h k = ground arith

closest_grows :
    (pc : ℕ) (c : Option Label) (ls : List Label)
    → closest_addr c ≤ closest_addr (closest_from pc c ls)
unfolding closest_from
closest_grows pc c [] = omega arith
closest_grows pc c (l ∷ ls) = ground (arith, closest_grows pc c ls, closest_grows pc (some l) ls)

closest-beyond :
    (pc : ℕ) (c : Option Label) (ls : List Label)
    → NoneBeyond pc (closest_addr (closest_from pc c ls)) ls
unfolding closest_from
closest-beyond pc c [] = tt
closest-beyond pc c (l ∷ ls) =
    let c' = if eligible pc l && ltb (closest_addr c) l.addr then some l else c in
    (λ e. ground (arith, closest_grows pc c' ls), closest-beyond pc c' ls)

-- The result is one of the eligible labels of the list, or the label it started with.
closest-member :
    (pc : ℕ) (c : Option Label) (ls : List Label)
    → (closest_from pc c ls ≡ c)
      ⊎ ((l : Label) × (closest_from pc c ls ≡ some l) × In l ls × (eligible pc l ≡ true))
unfolding closest_from
closest-member pc c [] = inl refl
closest-member pc c (l ∷ ls) = elim (Bool-cases (eligible pc l && ltb (closest_addr c) l.addr)) [
  | inl taken ↦ rw taken (elim (closest-member pc (some l) ls) [
    | inl e ↦ inr (l, e, inl refl, ground arith)
    | inr (x, e, member, ok) ↦ inr (x, e, inr member, ok)
  ])
  | inr left ↦ rw left (elim (closest-member pc c ls) [
    | inl e ↦ inl e
    | inr (x, e, member, ok) ↦ inr (x, e, inr member, ok)
  ])
]

-- The label found is named, outside the zero page, not after the address, and no other such label
-- is closer; where none is found there is no such label.
pub pc_to_label_lem : (labels : List Label) (pc : ℕ) → IsClosest pc labels (pc_to_label labels pc)
unfolding pc_to_label
pc_to_label_lem labels pc =
    let bound = closest-beyond pc none labels in
    elim (closest-member pc none labels) [
      | inl e ↦ rw e (rw e at bound)
      | inr (l, e, member, ok) ↦ rw e (member, ok, rw e at bound)
    ]
