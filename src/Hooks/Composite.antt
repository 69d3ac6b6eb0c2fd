-- ===== src/Hooks/Composite.antt =====
-- include/buxn/jit/composite_hook.h and include/buxn/jit.h: a hook is three optional callbacks, and a
-- composite hook calls those of its parts in order. A callback is what it does to a state.
pub mod Calls
use buxn_jit.Prelude.{ℕ, Option, none, some, List, [], ◌∷◌}

-- `buxn_jit_hook_t`, less the user data, which a callback closes over
pub record Hook {ℓ} (S : Type ℓ) : Type ℓ where
  pub begin_block : Option (S → S)
  pub jit_opcode : Option (ℕ → ℕ → S → S)
  pub end_block : Option (ℕ → ℕ → S → S)

module _ {ℓ} {S : Type ℓ} where
  -- The three functions of the composite hook
  unfoldable pub all_begin_block : List (Hook S) → S → S
  all_begin_block [] s = s
  all_begin_block (h ∷ hooks) s =
      all_begin_block hooks (elim h.begin_block [ none ↦ s | some f ↦ f s ])

  unfoldable pub all_jit_opcode : List (Hook S) → ℕ → ℕ → S → S
  all_jit_opcode [] pc opcode s = s
  all_jit_opcode (h ∷ hooks) pc opcode s =
      all_jit_opcode hooks pc opcode (elim h.jit_opcode [ none ↦ s | some f ↦ f pc opcode s ])

  unfoldable pub all_end_block : List (Hook S) → ℕ → ℕ → S → S
  all_end_block [] start size s = s
  all_end_block (h ∷ hooks) start size s =
      all_end_block hooks start size (elim h.end_block [ none ↦ s | some f ↦ f start size s ])

  -- `buxn_jit_init_composite_hook`
  unfoldable pub composite : List (Hook S) → Hook S
  unfolding all_begin_block all_jit_opcode all_end_block
  composite hooks = record {
    begin_block = some (all_begin_block hooks);
    jit_opcode = some (all_jit_opcode hooks);
    end_block = some (all_end_block hooks);
  }
