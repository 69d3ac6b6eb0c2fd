-- ===== src/Refine/Cached.antt =====
-- The items that a stack cache holds, and the references to registers that they make.
use buxn_jit.Prelude.{
  ℕ, zero, suc, ◌+◌, ◌-◌, ◌<◌, ◌≡◌, refl, List, [], ◌++◌, arith, ◌==◌, if◌then◌else◌,
}
use mathlib.Core.List.{append_assoc, append-nil}
use buxn_jit.Lir.{r_op_min}
use buxn_jit.Ctx.{Cell}
use buxn_jit.Refine.Push.{item_bytes}

-- The bytes of the first `n` cells, the top item first, in registers that read `regs`
abbrev pub cached : (ℕ → ℕ) → (ℕ → Cell) → ℕ → List ℕ
cached regs cells zero = []
cached regs cells (suc n) =
    item_bytes (cells n).value.is_short (regs (cells n).value.reg) ++ cached regs cells n

abbrev pub up : (ℕ → Cell) → ℕ → Cell
up cells i = cells (suc i)

-- The bottom item stands last.
pub cached_bottom :
    (regs : ℕ → ℕ) (cells : ℕ → Cell) (n : ℕ)
    → cached regs cells (suc n)
      ≡ cached regs (up cells) n ++ item_bytes (cells 0).value.is_short (regs (cells 0).value.reg)
cached_bottom regs cells zero = append-nil _
cached_bottom regs cells (suc n) = simp (cached_bottom regs cells n, append_assoc)

pub cached-congr :
    (regs regs' : ℕ → ℕ) (cells cells' : ℕ → Cell) (n : ℕ)
    → ((i : ℕ) → i < n → (cells' i).value ≡ (cells i).value)
    → ((i : ℕ) → i < n → regs' (cells i).value.reg ≡ regs (cells i).value.reg)
    → cached regs' cells' n ≡ cached regs cells n
cached-congr regs regs' cells cells' zero h k = refl
cached-congr regs regs' cells cells' (suc n) h k = rw (
  h n (omega arith),
  k n (omega arith),
  cached-congr regs regs' cells cells' n (λ i p. h i (omega arith)) (λ i p. k i (omega arith)),
)

-- How many of the first `n` cells are in the register with index `x`
abbrev pub refs : (ℕ → Cell) → ℕ → ℕ → ℕ
refs cells zero x = 0
refs cells (suc n) x = (if (cells n).value.reg - r_op_min == x then 1 else 0) + refs cells n x

pub refs_bottom :
    (cells : ℕ → Cell) (n x : ℕ)
    → refs cells (suc n) x
      ≡ refs (up cells) n x + (if (cells 0).value.reg - r_op_min == x then 1 else 0)
refs_bottom cells zero x = omega arith
refs_bottom cells (suc n) x = omega (arith, refs_bottom cells n x)

pub refs-congr :
    (cells cells' : ℕ → Cell) (n x : ℕ)
    → ((i : ℕ) → i < n → (cells' i).value ≡ (cells i).value)
    → refs cells' n x ≡ refs cells n x
refs-congr cells cells' zero x h = refl
refs-congr cells cells' (suc n) x h =
    rw (h n (omega arith), refs-congr cells cells' n x (λ i p. h i (omega arith)))
