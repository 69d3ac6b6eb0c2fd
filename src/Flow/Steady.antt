-- ===== src/Flow/Steady.antt =====
-- What every compiling function of src/jit.c leaves alone, and the rules by which that is found.
use buxn_jit.Prelude.{
  ℕ, ◌≡◌, refl, ◌∙◌, Bool, true, false, none, some, Option, if◌then◌else◌, ◌∷◌, ◌+◌,
}
use buxn_jit.Lir.{Instr}
use buxn_jit.Jit.Potential.{Grows, Grows-refl, Grows-trans}
use buxn_jit.Ctx.{
  Cache, Ctx, M, pure, ◌>>=◌, ◌>>◌, get, modify, assert, when, emit, fresh_id, with_cache,
}
use buxn_jit.Flow.Keeps.{
  IsPreorder, Keeps, Keeps-bind, Keeps-then, Keeps-pure, Keeps-get, Keeps-assert, Keeps-if,
  Keeps-when, Keeps-modify,
}

-- The place in the block, the memory image and the compiler stay; blocks are only asked for.
pub record Steady (ctx ctx' : Ctx) : Type 0 where
  pub pc : ctx'.pc ≡ ctx.pc
  pub image : ctx'.image ≡ ctx.image
  pub compiler : ctx'.compiler ≡ ctx.compiler
  pub jit : Grows ctx.jit ctx'.jit

pub Steady-IsPreorder : IsPreorder Steady
Steady-IsPreorder = record {
  same = λ a. record { pc = refl; image = refl; compiler = refl; jit = Grows-refl a.jit };
  next = λ a b c p q. record {
    pc = q.pc ∙ p.pc;
    image = q.image ∙ p.image;
    compiler = q.compiler ∙ p.compiler;
    jit = Grows-trans a.jit b.jit c.jit p.jit q.jit;
  };
}

pub Steady-made :
    (ctx ctx' : Ctx)
    → ctx'.pc ≡ ctx.pc
    → ctx'.image ≡ ctx.image
    → ctx'.compiler ≡ ctx.compiler
    → ctx'.jit ≡ ctx.jit
    → Steady ctx ctx'
Steady-made ctx ctx' pc image compiler jit = record {
  pc = pc;
  image = image;
  compiler = compiler;
  jit = rw jit (Grows-refl ctx.jit);
}

pub Steady-bind :
    {A B : Type 0} (f : M A) (g : A → M B)
    → Keeps Steady f
    → ((a : A) → Keeps Steady (g a))
    → Keeps Steady (f >>= g)
Steady-bind = Keeps-bind Steady-IsPreorder

pub Steady-then :
    {A B : Type 0} (f : M A) (g : M B) → Keeps Steady f → Keeps Steady g → Keeps Steady (f >> g)
Steady-then = Keeps-then Steady-IsPreorder

pub Steady-pure : {A : Type 0} (a : A) → Keeps Steady (pure a)
Steady-pure = Keeps-pure Steady-IsPreorder

pub Steady-get : Keeps Steady get
Steady-get = Keeps-get Steady-IsPreorder

pub Steady-assert : (b : Bool) → Keeps Steady (assert b)
Steady-assert = Keeps-assert Steady-IsPreorder

pub Steady-if :
    {A : Type 0} (b : Bool) (f g : M A)
    → Keeps Steady f
    → Keeps Steady g
    → Keeps Steady (if b then f else g)
Steady-if = Keeps-if Steady-IsPreorder

pub Steady-when : (b : Bool) (f : M (Unit {0})) → Keeps Steady f → Keeps Steady (when b f)
Steady-when = Keeps-when Steady-IsPreorder

-- A change to a part of the context that the relation does not name
pub Steady-modify :
    (h : Ctx → Ctx)
    → ((ctx : Ctx) → (h ctx).pc ≡ ctx.pc)
    → ((ctx : Ctx) → (h ctx).image ≡ ctx.image)
    → ((ctx : Ctx) → (h ctx).compiler ≡ ctx.compiler)
    → ((ctx : Ctx) → (h ctx).jit ≡ ctx.jit)
    → Keeps Steady (modify h)
Steady-modify h pc image compiler jit =
    Keeps-modify Steady-IsPreorder h
      (λ ctx. Steady-made ctx (h ctx) (pc ctx) (image ctx) (compiler ctx) (jit ctx))

pub Steady-emit : (i : Instr) → Keeps Steady (emit i)
Steady-emit i =
    Steady-modify (λ ctx. record ctx { code = i ∷ ctx.code }) (λ ctx. refl) (λ ctx. refl)
      (λ ctx. refl) (λ ctx. refl)

pub Steady-with_cache :
    (flag_r : Bool) (h : Ctx → Cache) → Keeps Steady (modify λ ctx. with_cache flag_r (h ctx) ctx)
Steady-with_cache true h = Steady-modify _ (λ ctx. refl) (λ ctx. refl) (λ ctx. refl) (λ ctx. refl)
Steady-with_cache false h = Steady-modify _ (λ ctx. refl) (λ ctx. refl) (λ ctx. refl) (λ ctx. refl)

pub Steady-fresh_id : Keeps Steady fresh_id
Steady-fresh_id = record {
  at = λ ctx n ctx' e.
      rw⁻¹ (made ctx ctx' n e)
        (Steady-made ctx (record ctx { next_id = ctx.next_id + 1 }) refl refl refl refl);
}
  where
    made :
        (ctx ctx' : Ctx) (n : ℕ)
        → fresh_id ctx ≡ some (n, ctx')
        → record ctx { next_id = ctx.next_id + 1 } ≡ ctx'
    made ctx ctx' n e = cc

pub ruleset steady_rules = (
  Steady-bind, Steady-then, Steady-pure, Steady-get, Steady-assert, Steady-if, Steady-when,
  Steady-modify, Steady-emit, Steady-with_cache, Steady-fresh_id, refl,
)
