-- ===== src/Refine/Alloc.antt =====
-- `buxn_jit_alloc_reg`: while one of the six registers is not held by an operand, the allocation
-- succeeds, spilling as many cells as it takes, and the stacks keep their contents.
use buxn_jit.Prelude.{
  ℕ, zero, suc, ◌+◌, ◌-◌, ◌%◌, ◌<◌, ◌≤◌, ◌≡◌, ◌≢◌, refl, ap, Bool, true, false, Option, none, some,
  List, not, arith, update, ◌==◌, if◌then◌else◌, Bool-cases, Option-cases, inl, inr,
}
use buxn_jit.Lir.{r_op_min, r_op_max}
use buxn_jit.Ctx.{Ctx, cache_of}
use buxn_jit.Regs.{op_flag_r, find_free_reg, retain_reg, num_op_regs, is_op_reg}
use buxn_jit.Cache.Spill.{spill, spill_either, make_room, alloc_reg}
use buxn_jit.Machine.{Machine}
use buxn_jit.Refine.Shape.{Shaped, Shaped-trans, Shaped-caches}
use buxn_jit.Refine.Ensures.{Ensures, Ensures-bind, Ensures-mono, Ensures-run}
use buxn_jit.Refine.Cached.{refs}
use buxn_jit.Refine.Inv.{Inv, Frame, Frame-refl, Frame-trans, Frame-caches, spill-Spilled}

pub find_free_reg-some :
    (ctx : Ctx) (r : ℕ)
    → find_free_reg ctx ≡ some r
    → (r_op_min ≤ r) × (r ≤ r_op_max) × (ctx.reg_ref_counts (r - r_op_min) ≡ 0)
unfolding find_free_reg
find_free_reg-some ctx r e = ground arith

pub find_free_reg-none :
    (ctx : Ctx) (x : ℕ) → find_free_reg ctx ≡ none → x < num_op_regs → ctx.reg_ref_counts x ≢ 0
unfolding find_free_reg
find_free_reg-none ctx x e h = ground arith

spill-empty :
    (flag_r : Bool) (ctx : Ctx)
    → (cache_of flag_r ctx).len ≡ 0
    → spill flag_r ctx ≡ some (false, ctx)
unfolding spill
spill-empty flag_r ctx e = rw e

module _ (m : Machine) (s0 : m.State) where
  -- A spill of one cell or the other
  record Fewer (held : ℕ → ℕ) (ctx : Ctx) (w r : List ℕ) (ctx' : Ctx) : Type 0 where
    inv : Inv m s0 held ctx' w r
    frame : Frame m s0 ctx ctx'
    fewer : ctx'.wst_cache.len + ctx'.rst_cache.len + 1 ≡ ctx.wst_cache.len + ctx.rst_cache.len
    shape : (side two : Bool) → Shaped side two ctx ctx'

  other_side :
      (flag_r : Bool) (ctx : Ctx)
      → ctx.wst_cache.len + ctx.rst_cache.len ≢ 0
      → (cache_of flag_r ctx).len ≡ 0
      → (cache_of (not flag_r) ctx).len ≢ 0
  other_side true ctx h e = omega arith
  other_side false ctx h e = omega arith

  spill_either-Fewer :
      (held : ℕ → ℕ) (ctx : Ctx) (w r : List ℕ)
      → Inv m s0 held ctx w r
      → ctx.wst_cache.len + ctx.rst_cache.len ≢ 0
      → Ensures (λ _. Fewer held ctx w r) (spill_either ctx)
  unfolding spill_either
  spill_either-Fewer held ctx w r v h =
      let side = op_flag_r ctx.current_opcode in
      elim (Bool-cases ((cache_of side ctx).len == 0)) [
        | inl none_left ↦
            let e : (cache_of side ctx).len ≡ 0 = ground arith in
            let (run, done) =
              spill-Spilled m s0 (not side) held ctx w r v (other_side side ctx h e) in
            Ensures-run (spill side) _ ctx _ (spill-empty side ctx e) (
              Ensures-run (spill (not side)) _ ctx _ run (record {
                inv = done.inv;
                frame = done.frame;
                fewer = done.fewer;
                shape = done.shape;
              }))
        | inr some_left ↦
            let ne : (cache_of side ctx).len ≢ 0 = ground arith in
            let (run, done) = spill-Spilled m s0 side held ctx w r v ne in
            Ensures-run (spill side) _ ctx _ run (record {
              inv = done.inv;
              frame = done.frame;
              fewer = done.fewer;
              shape = done.shape;
            })
      ]

  no_cells : (a b : ℕ) → a + b ≡ 0 → a ≡ 0
  no_cells a b e = omega arith

  -- A register that nothing refers to
  record Found (held : ℕ → ℕ) (ctx : Ctx) (w r : List ℕ) (found : Option ℕ) (ctx' : Ctx)
      : Type 0 where
    it : ℕ
    is_it : found ≡ some it
    free : find_free_reg ctx' ≡ some it
    inv : Inv m s0 held ctx' w r
    frame : Frame m s0 ctx ctx'
    shape : (side two : Bool) → Shaped side two ctx ctx'

  make_room-Found :
      (held : ℕ → ℕ) (w r : List ℕ) (n : ℕ) (ctx : Ctx) (x : ℕ)
      → x < num_op_regs
      → held x ≡ 0
      → Inv m s0 held ctx w r
      → ctx.wst_cache.len + ctx.rst_cache.len ≡ n
      → Ensures (Found held ctx w r) (make_room n ctx)
  unfolding make_room
  make_room-Found held w r zero ctx x hx free v e = elim (Option-cases (find_free_reg ctx)) [
    | inl full ↦ absurd (
        omega (
          arith,
          find_free_reg-none ctx x full hx,
          v.counted x,
          ap (λ k. refs ctx.wst_cache.cells k x) (no_cells ctx.wst_cache.len ctx.rst_cache.len e),
          ap (λ k. refs ctx.rst_cache.cells k x)
              (no_cells ctx.rst_cache.len ctx.wst_cache.len (omega arith)),
        ))
    | inr (r', some_free) ↦ record {
      it = r';
      is_it = some_free;
      free = some_free;
      inv = v;
      frame = Frame-refl m s0 ctx;
      shape = λ side two. Shaped-caches side two ctx ctx refl refl;
    }
  ]
  make_room-Found held w r (suc n) ctx x hx free v e = elim (Option-cases (find_free_reg ctx)) [
    | inl full ↦
        rw (full, make_room)
          (Ensures-bind spill_either (λ _. make_room n) ctx _ _
            (spill_either-Fewer held ctx w r v (omega arith))
            λ _ ctx1 p.
              Ensures-mono _ _ (make_room n ctx1)
                (make_room-Found held w r n ctx1 x hx free p.inv (omega (arith, p.fewer)))
                λ o ctx2 q. record {
                  it = q.it;
                  is_it = q.is_it;
                  free = q.free;
                  inv = q.inv;
                  frame = Frame-trans m s0 ctx ctx1 ctx2 p.frame q.frame;
                  shape = λ side two.
                      Shaped-trans side two ctx ctx1 ctx2 (p.shape side two) (q.shape side two);
                })
    | inr (r', some_free) ↦
        rw (some_free, make_room)
          (record {
            it = r';
            is_it = refl;
            free = some_free;
            inv = v;
            frame = Frame-refl m s0 ctx;
            shape = λ side two. Shaped-caches side two ctx ctx refl refl;
          })
  ]

pub retain_reg-run :
    (r : ℕ) (ctx : Ctx)
    → r_op_min ≤ r
    → r ≤ r_op_max
    → retain_reg r ctx
      ≡ some (
        tt,
        record ctx {
          reg_ref_counts =
              update ctx.reg_ref_counts
                (r - r_op_min)
                ((ctx.reg_ref_counts (r - r_op_min) + 1) % 256);
        },
      )
unfolding retain_reg
retain_reg-run r ctx lo hi = let valid : is_op_reg r ≡ true = ground arith in rw valid

-- No operand in any register
abbrev pub nothing_held : ℕ → ℕ
nothing_held x = 0

-- One more operand in a register
abbrev pub hold : (ℕ → ℕ) → ℕ → ℕ → ℕ
hold held r x = if r - r_op_min == x then held x + 1 else held x

module _ (m : Machine) (s0 : m.State) where
  -- The register was referred to by no cell and no operand; the opcode now holds it.
  pub record Allocated (held : ℕ → ℕ) (ctx : Ctx) (w r : List ℕ) (new : ℕ) (ctx' : Ctx)
      : Type 0 where
    pub lo : r_op_min ≤ new
    pub hi : new ≤ r_op_max
    pub unused :
        (refs ctx'.wst_cache.cells ctx'.wst_cache.len (new - r_op_min) ≡ 0)
        × (refs ctx'.rst_cache.cells ctx'.rst_cache.len (new - r_op_min) ≡ 0)
        × (held (new - r_op_min) ≡ 0)
    pub inv : Inv m s0 (hold held new) ctx' w r
    pub frame : Frame m s0 ctx ctx'
    pub shape : (side two : Bool) → Shaped side two ctx ctx'

  retained :
      (held : ℕ → ℕ) (ctx : Ctx) (w r : List ℕ) (new : ℕ)
      → Inv m s0 held ctx w r
      → ctx.reg_ref_counts (new - r_op_min) ≡ 0
      → Inv m s0
          (hold held new)
          (record ctx {
            reg_ref_counts =
                update ctx.reg_ref_counts
                  (new - r_op_min)
                  ((ctx.reg_ref_counts (new - r_op_min) + 1) % 256);
          })
          w
          r
  retained held ctx w r new v e = record {
    anchored = record { vm = v.anchored.vm; base = v.anchored.base };
    wst = v.wst;
    rst = v.rst;
    wst_fresh = v.wst_fresh;
    rst_fresh = v.rst_fresh;
    counted = λ x. ground (arith, v.counted x, v.counted (new - r_op_min));
    wst_bound = v.wst_bound;
    rst_bound = v.rst_bound;
  }

  -- Under the invariant, while some operand register `x` is held by no operand, the allocation
  -- does not fail: it returns a register that nothing referred to, and both stacks keep their
  -- contents.
  pub alloc_reg-Allocated :
      (held : ℕ → ℕ) (ctx : Ctx) (w r : List ℕ) (x : ℕ)
      → x < num_op_regs
      → held x ≡ 0
      → Inv m s0 held ctx w r
      → Ensures (Allocated held ctx w r) (alloc_reg ctx)
  unfolding alloc_reg
  alloc_reg-Allocated held ctx w r x hx free v =
      Ensures-bind (make_room (ctx.wst_cache.len + ctx.rst_cache.len)) _ ctx _ _
        (make_room-Found m s0 held w r (ctx.wst_cache.len + ctx.rst_cache.len) ctx x hx free v refl)
        λ o ctx1 q.
          let (lo, hi, zero_count) = find_free_reg-some ctx1 q.it q.free in
          rw q.is_it (
            Ensures-run (retain_reg q.it) _ ctx1 _ (retain_reg-run q.it ctx1 lo hi) (record {
              lo = lo;
              hi = hi;
              unused = omega (arith, q.inv.counted (q.it - r_op_min));
              inv = retained held ctx1 w r q.it q.inv zero_count;
              frame = Frame-caches m s0 ctx ctx1 (ctx1.wst_cache) (ctx1.rst_cache) _ q.frame;
              shape = λ side two.
                  Shaped-trans side two ctx ctx1 _ (q.shape side two)
                    (Shaped-caches side two ctx1 _ refl refl);
            }))
