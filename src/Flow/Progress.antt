-- ===== src/Flow/Progress.antt =====
-- src/jit.c: the place in the block only moves on, up to the end of the address space. The opcodes
-- that read an immediate, and those that jump, are treated here, the others are steady.
use buxn_jit.Prelude.{
  ℕ, ◌+◌, ◌-◌, ◌<◌, ◌^◌, ◌%◌, ◌≡◌, refl, ◌∙◌, ap, ltb, Bool, some, if◌then◌else◌,
}
use buxn_jit.Jit.Potential.{Grows, Grows-refl, Grows-trans}
use buxn_jit.Ctx.{Operand, Ctx, M, ◌>>=◌}
use buxn_jit.Micro.Stack.{size}
use buxn_jit.Micro.Memory.{advance_pc, immediate, immediate_jump_target}
use buxn_jit.Flow.Keeps.{Keeps-compose, IsPreorder, Keeps, Keeps-mono, Keeps-bind}
use buxn_jit.Flow.Steady.{Steady, steady_rules}
use buxn_jit.Flow.Caches.{set_mem_base-Steady, alloc_reg-Steady}

-- How many addresses are left up to the end of memory; below the reset vector nothing is compiled.
unfoldable pub left : ℕ → ℕ
left pc = if ltb pc 256 then 0 else 2 ^ 16 - pc

pub record Within (n pc : ℕ) : Type 0 where
  pub short : pc < 2 ^ 16
  pub room : left pc < n

pub record Stays (n : ℕ) (ctx ctx' : Ctx) : Type 0 where
  pub within : Within n ctx.pc → Within n ctx'.pc
  pub jit : Grows ctx.jit ctx'.jit

pub Stays-IsPreorder : (n : ℕ) → IsPreorder (Stays n)
Stays-IsPreorder n = record {
  same = λ a. record { within = λ w. w; jit = Grows-refl a.jit };
  next = λ a b c p q. record {
    within = λ w. q.within (p.within w);
    jit = Grows-trans a.jit b.jit c.jit p.jit q.jit;
  };
}

pub Steady-Stays : {A : Type 0} (n : ℕ) (f : M A) → Keeps Steady f → Keeps (Stays n) f
Steady-Stays n f = Keeps-mono f λ a b s. record { within = λ w. rw (s.pc) w; jit = s.jit }

pub Stays-bind :
    {A B : Type 0} (n : ℕ) (f : M A) (g : A → M B)
    → Keeps (Stays n) f
    → ((a : A) → Keeps (Stays n) (g a))
    → Keeps (Stays n) (f >>= g)
Stays-bind n = Keeps-bind (Stays-IsPreorder n)

-- An immediate of `k` bytes is read
pub record Advances (k : ℕ) (ctx ctx' : Ctx) : Type 0 where
  pub pc : ctx'.pc ≡ (ctx.pc + k) % 2 ^ 16
  pub jit : Grows ctx.jit ctx'.jit

pub Advances-later :
    {A B : Type 0} (k : ℕ) (f : M A) (g : A → M B)
    → Keeps Steady f
    → ((a : A) → Keeps (Advances k) (g a))
    → Keeps (Advances k) (f >>= g)
Advances-later k f g = Keeps-compose f g λ a b c s m. record {
  pc = m.pc ∙ ap (λ pc. (pc + k) % 2 ^ 16) (s.pc);
  jit = Grows-trans a.jit b.jit c.jit s.jit m.jit;
}

pub Advances-now :
    {A B : Type 0} (k : ℕ) (f : M A) (g : A → M B)
    → Keeps (Advances k) f
    → ((a : A) → Keeps Steady (g a))
    → Keeps (Advances k) (f >>= g)
Advances-now k f g =
    Keeps-compose f g
      λ a b c m s. record { pc = s.pc ∙ m.pc; jit = Grows-trans a.jit b.jit c.jit m.jit s.jit }

advance_pc-Advances : (k : ℕ) → Keeps (Advances k) (advance_pc k)
advance_pc-Advances k = record {
  at = λ ctx a ctx' e. rw⁻¹ (made ctx ctx' a e) (record { pc = refl; jit = Grows-refl ctx.jit });
}
  where
    made :
        (ctx ctx' : Ctx) (a : Unit {0})
        → advance_pc k ctx ≡ some (a, ctx')
        → record ctx { pc = (ctx.pc + k) % 2 ^ 16 } ≡ ctx'
    made ctx ctx' a e = cc

pub immediate-Advances : (is_short : Bool) → Keeps (Advances (size is_short)) (immediate is_short)
unfolding immediate
immediate-Advances is_short =
    search
      (
        Advances-later (size is_short),
        Advances-now,
        advance_pc-Advances,
        alloc_reg-Steady,
        set_mem_base-Steady,
        steady_rules,
      )
      depth 40 fits 5000

pub immediate_jump_target-Advances : Keeps (Advances 2) immediate_jump_target
unfolding immediate_jump_target
immediate_jump_target-Advances = record {
  at = λ ctx a ctx' e. rw⁻¹ (made ctx ctx' a e) (record { pc = refl; jit = Grows-refl ctx.jit });
}
  where
    made :
        (ctx ctx' : Ctx) (a : Operand)
        → immediate_jump_target ctx ≡ some (a, ctx')
        → record ctx { pc = (ctx.pc + 2) % 2 ^ 16; code = ctx'.code } ≡ ctx'
    made ctx ctx' a e = cc
