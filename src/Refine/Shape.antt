-- ===== src/Refine/Shape.antt =====
-- The sizes of the items in a stack cache, and what becomes of them.
use buxn_jit.Prelude.{ℕ, ◌<◌, ◌≤◌, ◌≡◌, Bool, true, false, not, arith}
use buxn_jit.Ctx.{Cache, Ctx, cache_of}

-- All items in the cache have one size.
abbrev pub Flat : Bool → Cache → Type 0
Flat two cache = (i : ℕ) → i < cache.len → (cache.cells i).value.is_short ≡ two

-- A cache of one size stays so, and the other one does not grow.
pub record Shaped (side two : Bool) (ctx ctx' : Ctx) : Type 0 where
  pub flat : Flat two (cache_of side ctx) → Flat two (cache_of side ctx')
  pub other : (cache_of (not side) ctx').len ≤ (cache_of (not side) ctx).len

pub Shaped-trans :
    (side two : Bool) (a b c : Ctx)
    → Shaped side two a b
    → Shaped side two b c
    → Shaped side two a c
Shaped-trans side two a b c p q = record {
  flat = λ f. q.flat (p.flat f);
  other = omega (arith, p.other, q.other);
}

pub Shaped-caches :
    (side two : Bool) (ctx ctx' : Ctx)
    → ctx'.wst_cache ≡ ctx.wst_cache
    → ctx'.rst_cache ≡ ctx.rst_cache
    → Shaped side two ctx ctx'
Shaped-caches true two ctx ctx' w r = record { flat = λ f. rw r f; other = rw w (omega arith) }
Shaped-caches false two ctx ctx' w r = record { flat = λ f. rw w f; other = rw r (omega arith) }
