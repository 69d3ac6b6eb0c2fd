-- ===== src/Flow/Keeps.antt =====
-- A relation between the contexts before and after a compiling function that returns, with a rule for
-- each way to build one.
use buxn_jit.Prelude.{◌≡◌, refl, Bool, true, false, Option, none, some, if◌then◌else◌}
use buxn_jit.Ctx.{Ctx, M, pure, ◌>>=◌, ◌>>◌, get, modify, assert, when}

pub record IsPreorder (R : Ctx → Ctx → Type 0) : Type 0 where
  pub same : (a : Ctx) → R a a
  pub next : (a b c : Ctx) → R a b → R b c → R a c

-- Whenever `f` returns, the contexts are related.
pub record Keeps {A : Type 0} (R : Ctx → Ctx → Type 0) (f : M A) : Type 0 where
  pub at : (ctx : Ctx) (a : A) (ctx' : Ctx) → f ctx ≡ some (a, ctx') → R ctx ctx'

pub Keeps-mono :
    {A : Type 0} {R S : Ctx → Ctx → Type 0} (f : M A)
    → ((a b : Ctx) → R a b → S a b)
    → Keeps R f
    → Keeps S f
Keeps-mono f h k = record { at = λ ctx a ctx' e. h ctx ctx' (k.at ctx a ctx' e) }

pub bind-cases :
    {A B : Type 0} (r : Option (A × Ctx)) (g : A → M B) (b : B) (ctx' : Ctx)
    → ◌≡◌ {A = Option (B × Ctx)} (elim r [ none ↦ none | some (a, c) ↦ g a c ]) (some (b, ctx'))
    → (a : A) × (c : Ctx) × (r ≡ some (a, c)) × (g a c ≡ some (b, ctx'))
bind-cases none g b ctx' e = cc
bind-cases (some (a, c)) g b ctx' e = (a, c, refl, e)

module _ {R : Ctx → Ctx → Type 0} (p : IsPreorder R) where
  pub Keeps-bind :
      {A B : Type 0} (f : M A) (g : A → M B)
      → Keeps R f
      → ((a : A) → Keeps R (g a))
      → Keeps R (f >>= g)
  Keeps-bind f g kf kg = record {
    at = λ ctx b ctx' e.
        let (a, c, first, rest) = bind-cases (f ctx) g b ctx' e in
        p.next ctx c ctx' (kf.at ctx a c first) ((kg a).at c b ctx' rest);
  }

  pub Keeps-then : {A B : Type 0} (f : M A) (g : M B) → Keeps R f → Keeps R g → Keeps R (f >> g)
  Keeps-then f g kf kg = Keeps-bind f (λ _. g) kf (λ _. kg)

  pub Keeps-pure : {A : Type 0} (a : A) → Keeps R (pure a)
  Keeps-pure a = record { at = λ ctx b ctx' e. rw (done ctx ctx' a b e) (p.same ctx') }
    where
      done :
          {A : Type 0} (ctx ctx' : Ctx) (a b : A)
          → ◌≡◌ {A = Option (A × Ctx)} (some (a, ctx)) (some (b, ctx'))
          → ctx ≡ ctx'
      done ctx ctx' a b e = cc

  pub Keeps-get : Keeps R get
  Keeps-get = record { at = λ ctx b ctx' e. rw (same ctx ctx' b e) (p.same ctx') }
    where
      same : (ctx ctx' b : Ctx) → get ctx ≡ some (b, ctx') → ctx ≡ ctx'
      same ctx ctx' b e = cc

  pub Keeps-assert : (b : Bool) → Keeps R (assert b)
  Keeps-assert true = Keeps-pure tt
  Keeps-assert false = record { at = λ ctx a ctx' e. cc }

  pub Keeps-if :
      {A : Type 0} (b : Bool) (f g : M A) → Keeps R f → Keeps R g → Keeps R (if b then f else g)
  Keeps-if true f g kf kg = kf
  Keeps-if false f g kf kg = kg

  pub Keeps-when : (b : Bool) (f : M (Unit {0})) → Keeps R f → Keeps R (when b f)
  Keeps-when true f k = k
  Keeps-when false f k = Keeps-pure tt

  pub Keeps-modify : (h : Ctx → Ctx) → ((ctx : Ctx) → R ctx (h ctx)) → Keeps R (modify h)
  Keeps-modify h k = record { at = λ ctx b ctx' e. rw⁻¹ (made h ctx ctx' b e) (k ctx) }
    where
      made :
          (h : Ctx → Ctx) (ctx ctx' : Ctx) (b : Unit {0})
          → modify h ctx ≡ some (b, ctx')
          → h ctx ≡ ctx'
      made h ctx ctx' b e = cc

-- A function that fails has nothing to keep.
pub Keeps-none : {A : Type 0} {R : Ctx → Ctx → Type 0} → Keeps {A = A} R (λ ctx. none)
Keeps-none = record { at = λ ctx a ctx' e. cc }

pub Keeps-compose :
    {A B : Type 0} {R S T : Ctx → Ctx → Type 0} (f : M A) (g : A → M B)
    → ((a b c : Ctx) → R a b → S b c → T a c)
    → Keeps R f
    → ((a : A) → Keeps S (g a))
    → Keeps T (f >>= g)
Keeps-compose f g h kf kg = record {
  at = λ ctx b ctx' e.
      let (a, c, first, rest) = bind-cases (f ctx) g b ctx' e in
      h ctx c ctx' (kf.at ctx a c first) ((kg a).at c b ctx' rest);
}
