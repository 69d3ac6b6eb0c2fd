-- ===== src/Refine/Ensures.antt =====
-- Postconditions of the compiling functions: no assertion fails, and the result is as stated.
use buxn_jit.Prelude.{◌≡◌, refl, Option, none, some}
use buxn_jit.Ctx.{Ctx, M, ◌>>=◌}
use buxn_jit.Flow.Keeps.{Keeps}

abbrev pub Ensures : {A : Type 0} → (A → Ctx → Type 0) → Option (A × Ctx) → Type 0
Ensures P none = ⊥
Ensures P (some (a, ctx)) = P a ctx

pub Ensures-bind :
    {A B : Type 0} (f : M A) (g : A → M B) (ctx : Ctx) (P : A → Ctx → Type 0) (Q : B → Ctx → Type 0)
    → Ensures P (f ctx)
    → ((a : A) (ctx' : Ctx) → P a ctx' → Ensures Q (g a ctx'))
    → Ensures Q ((f >>= g) ctx)
Ensures-bind {A} {B} f g ctx P Q h k = go (f ctx) h
  where
    go :
        (r : Option (A × Ctx))
        → Ensures P r
        → Ensures Q (elim r [ none ↦ none | some (a, ctx') ↦ g a ctx' ])
    go none e = absurd e
    go (some (a, ctx')) e = k a ctx' e

pub >>=-run :
    {A B : Type 0} (f : M A) (g : A → M B) (ctx : Ctx) {a : A} {ctx' : Ctx}
    → f ctx ≡ some (a, ctx')
    → (f >>= g) ctx ≡ g a ctx'
>>=-run f g ctx e = rw (e, ◌>>=◌)

pub Ensures-run :
    {A B : Type 0} (f : M A) (g : A → M B) (ctx : Ctx) {a : A} {ctx' : Ctx} (Q : B → Ctx → Type 0)
    → f ctx ≡ some (a, ctx')
    → Ensures Q (g a ctx')
    → Ensures Q ((f >>= g) ctx)
Ensures-run f g ctx Q e h = rw (e, ◌>>=◌) h

pub Ensures-mono :
    {A : Type 0} (P Q : A → Ctx → Type 0) (r : Option (A × Ctx))
    → Ensures P r
    → ((a : A) (ctx : Ctx) → P a ctx → Q a ctx)
    → Ensures Q r
Ensures-mono P Q none e k = absurd e
Ensures-mono P Q (some (a, ctx)) e k = k a ctx e

-- A relation that `f` keeps can be added to its postcondition.
pub Ensures-Keeps :
    {A : Type 0} {R : Ctx → Ctx → Type 0} (f : M A) (ctx : Ctx) (P : A → Ctx → Type 0)
    → Keeps R f
    → Ensures P (f ctx)
    → Ensures (λ a ctx'. P a ctx' × R ctx ctx') (f ctx)
Ensures-Keeps {A} {R} f ctx P k h = go (f ctx) refl h
  where
    go :
        (r : Option (A × Ctx))
        → f ctx ≡ r
        → Ensures P r
        → Ensures (λ a ctx'. P a ctx' × R ctx ctx') r
    go none e h = absurd h
    go (some (a, ctx')) e h = (h, k.at ctx a ctx' e)
