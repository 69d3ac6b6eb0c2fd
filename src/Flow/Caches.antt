-- ===== src/Flow/Caches.antt =====
-- src/jit.c, "Stack cache": its functions are steady.
use buxn_jit.Prelude.{ℕ, zero, suc, ◌≡◌, Bool, Option, none, some}
use buxn_jit.Lir.{Field}
use buxn_jit.Ctx.{Operand, Ctx, M, ◌>>=◌}
use buxn_jit.Regs.{retain_reg, release_reg, find_free_reg}
use buxn_jit.Cache.Spill.{
  set_mem_base, do_push, flush_cell, spill, spill_either, make_room, alloc_reg, push_cell,
}
use buxn_jit.Flow.Keeps.{Keeps, Keeps-none}
use buxn_jit.Flow.Steady.{
  Steady, Steady-IsPreorder, Steady-pure, Steady-get, Steady-bind, steady_rules,
}

pub retain_reg-Steady : (r : ℕ) → Keeps Steady (retain_reg r)
unfolding retain_reg
retain_reg-Steady r = search steady_rules depth 40 fits 5000

pub release_reg-Steady : (r : ℕ) → Keeps Steady (release_reg r)
unfolding release_reg
release_reg-Steady r = search steady_rules depth 40 fits 5000

pub set_mem_base-Steady : (base : Field) → Keeps Steady (set_mem_base base)
unfolding set_mem_base
set_mem_base-Steady base = search steady_rules depth 40 fits 5000

pub do_push-Steady : (operand : Operand) (flag_r : Bool) → Keeps Steady (do_push operand flag_r)
unfolding do_push
do_push-Steady operand flag_r = search (set_mem_base-Steady, steady_rules) depth 40 fits 5000

pub flush_cell-Steady : (flag_r : Bool) (i : ℕ) → Keeps Steady (flush_cell flag_r i)
unfolding flush_cell
flush_cell-Steady flag_r i = search (do_push-Steady, steady_rules) depth 40 fits 5000

pub spill-Steady : (flag_r : Bool) → Keeps Steady (spill flag_r)
unfolding spill
spill-Steady flag_r =
    search (flush_cell-Steady, release_reg-Steady, steady_rules) depth 40 fits 5000

pub spill_either-Steady : Keeps Steady spill_either
unfolding spill_either
spill_either-Steady = search (spill-Steady, steady_rules) depth 40 fits 5000

pub push_cell-Steady : (flag_r : Bool) (value : Operand) → Keeps Steady (push_cell flag_r value)
unfolding push_cell
push_cell-Steady flag_r value =
    search (spill-Steady, retain_reg-Steady, steady_rules) depth 40 fits 5000

found-Steady :
    (free : Option ℕ) (f : M (Option ℕ)) (ctx : Ctx) (a : Option ℕ) (ctx' : Ctx)
    → Keeps Steady f
    → ◌≡◌ {A = Option (Option ℕ × Ctx)}
        (elim free [ some r ↦ some (some r, ctx) | none ↦ f ctx ])
        (some (a, ctx'))
    → Steady ctx ctx'
found-Steady (some r) f ctx a ctx' k e = (Steady-pure (some r)).at ctx a ctx' e
found-Steady none f ctx a ctx' k e = k.at ctx a ctx' e

pub make_room-Steady : (n : ℕ) → Keeps Steady (make_room n)
unfolding make_room
make_room-Steady zero = record {
  at = λ ctx a ctx' e. rw (same ctx ctx' a e) (Steady-IsPreorder.same ctx');
}
  where
    same : (ctx ctx' : Ctx) (a : Option ℕ) → make_room zero ctx ≡ some (a, ctx') → ctx ≡ ctx'
    same ctx ctx' a e = cc
make_room-Steady (suc n) = record {
  at = λ ctx a ctx' e.
      found-Steady (find_free_reg ctx) (spill_either >>= λ _. make_room n) ctx a ctx'
        (Steady-bind spill_either (λ _. make_room n) spill_either-Steady (λ _. make_room-Steady n))
        e;
}

pub or_fail-Steady :
    {A : Type 0} (found : Option ℕ) (f : ℕ → M A)
    → ((r : ℕ) → Keeps Steady (f r))
    → Keeps Steady (elim found [ none ↦ λ _. none | some r ↦ f r ])
or_fail-Steady none f k = Keeps-none
or_fail-Steady (some r) f k = k r

pub alloc_reg-Steady : Keeps Steady alloc_reg
unfolding alloc_reg
alloc_reg-Steady = Steady-bind _ _ Steady-get λ ctx.
    Steady-bind _ _ (make_room-Steady _)
      λ found. or_fail-Steady found _ λ r. search (retain_reg-Steady, steady_rules)
