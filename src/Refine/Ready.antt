-- ===== src/Refine/Ready.antt =====
-- `buxn_jit_pop` where the item is ready: what it hands out, and what is ready after it.
use buxn_jit.Prelude.{
  ℕ, zero, suc, ◌+◌, ◌-◌, ◌<◌, ◌≤◌, ◌≡◌, ◌≢◌, refl, ap, ◌∙◌, Bool, true, false, none, List, [], ◌∷◌,
  ◌++◌, arith, length, length-append, ◌==◌, Bool-cases, Option-cases, inl, inr, update,
}
use buxn_jit.Lir.{r_op_min, r_op_max}
use buxn_jit.Ctx.{Operand, Cell, Cache, Ctx, cache_of}
use buxn_jit.Regs.{find_free_reg, num_op_regs, op_flag_2, op_flag_r}
use buxn_jit.Micro.Stack.{size, pop_ex, pop_operand}
use buxn_jit.Machine.{Machine}
use buxn_jit.Refine.Ensures.{Ensures, Ensures-mono}
use buxn_jit.Refine.Push.{item_bytes}
use buxn_jit.Refine.Item.{at}
use buxn_jit.Refine.Alloc.{find_free_reg-some}
use buxn_jit.Refine.Room.{counted_up}
use buxn_jit.Refine.Operand.{Popping, pop_ex-Popping}
use buxn_jit.Refine.Pop.{shorter, shorter-Shaped}
use buxn_jit.Refine.Side.{
  w_of, r_of, free_from, free_regs, Sized, total, Ready, Sides, Frame-Quiet, Got,
}
use buxn_jit.Refine.Take.{fetch_operand-Got}

free-none : (ctx : Ctx) → find_free_reg ctx ≡ none → free_regs ctx ≡ 0
unfolding find_free_reg free_from
free-none ctx e = ground arith

free_from-before :
    (counts : ℕ → ℕ) (k v n i : ℕ)
    → k < i
    → free_from (update counts k v) n i ≡ free_from counts n i
unfolding free_from
free_from-before counts k v zero i h = refl
free_from-before counts k v (suc n) i h = ground (arith, free_from-before counts k v n (i + 1))

-- A register taken is one fewer.
free_from-update :
    (counts : ℕ → ℕ) (k v n i : ℕ)
    → counts k ≡ 0
    → v ≢ 0
    → i ≤ k
    → k < i + n
    → free_from (update counts k v) n i + 1 ≡ free_from counts n i
unfolding free_from
free_from-update counts k v zero i e ne lo hi = absurd (omega arith)
free_from-update counts k v (suc n) i e ne lo hi = elim (Bool-cases (k == i)) [
  | inl here ↦ ground (arith, free_from-before counts k v n (i + 1))
  | inr later ↦ ground (arith, free_from-update counts k v n (i + 1))
]

free-counted_up :
    (ctx : Ctx) (new : ℕ)
    → r_op_min ≤ new
    → new ≤ r_op_max
    → ctx.reg_ref_counts (new - r_op_min) ≡ 0
    → free_from (counted_up ctx.reg_ref_counts new) num_op_regs 0 + 1 ≡ free_regs ctx
free-counted_up ctx new lo hi e =
    free_from-update ctx.reg_ref_counts (new - r_op_min) _ num_op_regs 0 e (omega arith)
      (omega arith) (omega arith)

pub length-item : (two : Bool) (v : ℕ) → length (item_bytes two v) ≡ size two
length-item true v = refl
length-item false v = refl

-- An item fewer
one_less :
    (s : Bool) (k v : ℕ) (l rest : List ℕ)
    → size s + k ≤ length l
    → l ≡ item_bytes s v ++ rest
    → k ≤ length rest
one_less s k v l rest h e =
    omega (arith, ap length e, length-append (item_bytes s v) rest, length-item s v)

-- The size of the top cell, and of those below it
pub Sized_top :
    (s : Bool) (ss : List Bool) (cells : ℕ → Cell) (n : ℕ)
    → n ≢ 0
    → Sized (s ∷ ss) cells n
    → ((cells (n - 1)).value.is_short ≡ s) × Sized ss cells (n - 1)
Sized_top s ss cells zero h z = absurd (h refl)
Sized_top s ss cells (suc n) h (top, below) =
    let e : suc n - 1 ≡ n = omega arith in rw e (top, below)

pub Sized_none : (ss : List Bool) (cells : ℕ → Cell) (n : ℕ) → n ≡ 0 → Sized ss cells n
Sized_none [] cells n e = tt
Sized_none (s ∷ ss) cells zero e = tt
Sized_none (s ∷ ss) cells (suc n) e = absurd (omega arith)

module _ (m : Machine) (s0 : m.State) where
  open m use {reg_of}

  Popping-Got :
      (flag_r two : Bool) (held : ℕ → ℕ) (ctx : Ctx) (l o : List ℕ) (operand : Operand) (ctx' : Ctx)
      → (cache_of flag_r ctx).len ≢ 0
      → Popping m s0 flag_r two held ctx (w_of flag_r l o) (r_of flag_r l o) operand ctx'
      → Got m s0 flag_r two held ctx l o operand ctx'
  Popping-Got true two held ctx l o operand ctx' ne p = record {
    rest = p.popped.rest_r;
    is_short = p.is_short;
    lo = p.lo;
    hi = p.hi;
    fits = p.popped.fits;
    item = p.popped.item_r;
    inv = rw p.popped.item_w p.popped.inv;
    kept = λ x lo hi used. p.popped.frame.regs x lo hi;
    alone = λ h. rw (p.counts, p.reg) (h ne);
    shape = λ t. shorter-Shaped true t ctx ctx' p.cache p.others;
    quiet = Frame-Quiet m s0 ctx ctx' p.popped.frame;
  }
  Popping-Got false two held ctx l o operand ctx' ne p = record {
    rest = p.popped.rest_w;
    is_short = p.is_short;
    lo = p.lo;
    hi = p.hi;
    fits = p.popped.fits;
    item = p.popped.item_w;
    inv = rw p.popped.item_r p.popped.inv;
    kept = λ x lo hi used. p.popped.frame.regs x lo hi;
    alone = λ h. rw (p.counts, p.reg) (h ne);
    shape = λ t. shorter-Shaped false t ctx ctx' p.cache p.others;
    quiet = Frame-Quiet m s0 ctx ctx' p.popped.frame;
  }

  -- A pop, and what is ready after it
  pub record Taken (flag_r two s : Bool) (held : ℕ → ℕ) (ss : List Bool) (ctx : Ctx) (l o : List ℕ)
      (operand : Operand) (ctx' : Ctx) : Type 0 where
    pub got : Got m s0 flag_r s held ctx l o operand ctx'
    pub ready : Ready flag_r two ss ctx' got.rest

  still-Ready :
      (flag_r two s : Bool) (held : ℕ → ℕ) (ss : List Bool) (ctx : Ctx) (l o : List ℕ)
      (operand : Operand) (ctx' : Ctx) (cache : Cache)
      → Ready flag_r two (s ∷ ss) ctx l
      → (g : Got m s0 flag_r s held ctx l o operand ctx') → cache_of flag_r ctx' ≡ cache
      → Sized ss cache.cells cache.len
      → length ss ≤ cache.len + free_regs ctx'
      → Ready flag_r two ss ctx' g.rest
  still-Ready flag_r two s held ss ctx l o operand ctx' cache r g e sizes regs = record {
    side = ap op_flag_r g.quiet.mode.opcode ∙ r.side;
    mode = ap op_flag_2 g.quiet.mode.opcode ∙ r.mode;
    shadow = g.quiet.mode.shadow ∙ r.shadow;
    wsp_reg = g.quiet.mode.wsp_reg ∙ r.wsp_reg;
    rsp_reg = g.quiet.mode.rsp_reg ∙ r.rsp_reg;
    sizes = rw e sizes;
    regs = rw e regs;
    there = one_less s (total ss) (reg_of (at m s0 ctx') operand.reg) l g.rest r.there g.item;
  }

  cached-Taken :
      (flag_r two s : Bool) (held : ℕ → ℕ) (ss : List Bool) (ctx : Ctx) (l o : List ℕ)
      → Sides m s0 flag_r held ctx l o
      → Ready flag_r two (s ∷ ss) ctx l
      → (cache_of flag_r ctx).len ≢ 0
      → Ensures (Taken flag_r two s held ss ctx l o) (pop_ex s flag_r ctx)
  cached-Taken flag_r two s held ss ctx l o v r ne =
      let cache = cache_of flag_r ctx in
      let (top, below) = Sized_top s ss cache.cells cache.len ne r.sizes in
      Ensures-mono _ _ (pop_ex s flag_r ctx)
        (rw top at
          (pop_ex-Popping m s0 flag_r held ctx (w_of flag_r l o) (r_of flag_r l o) v r.shadow ne))
        λ operand ctx' p.
          let got = Popping-Got flag_r s held ctx l o operand ctx' ne p in
          record {
            got = got;
            ready =
                still-Ready flag_r two s held ss ctx l o operand ctx' (shorter cache) r got p.cache
                  below (omega (arith, r.regs, ap (λ c. free_from c num_op_regs 0) p.counts));
          }

  fetched-Taken :
      (flag_r two s : Bool) (held : ℕ → ℕ) (ss : List Bool) (ctx : Ctx) (l o : List ℕ)
      → Sides m s0 flag_r held ctx l o
      → Ready flag_r two (s ∷ ss) ctx l
      → (cache_of flag_r ctx).len ≡ 0
      → Ensures (Taken flag_r two s held ss ctx l o) (pop_ex s flag_r ctx)
  fetched-Taken flag_r two s held ss ctx l o v r e = elim (Option-cases (find_free_reg ctx)) [
    | inl full ↦ absurd (omega (arith, r.regs, free-none ctx full))
    | inr (new, free) ↦
        let (lo, hi, unused) = find_free_reg-some ctx new free in
        Ensures-mono _ _ (pop_ex s flag_r ctx)
          (fetch_operand-Got m s0 flag_r s held ctx new l o v r.shadow r.wsp_reg r.rsp_reg e free
            (omega (arith, r.there)))
          λ operand ctx' (got, cache, counts). record {
            got = got;
            ready =
                still-Ready flag_r two s held ss ctx l o operand ctx' (cache_of flag_r ctx) r got
                  cache (Sized_none ss (cache_of flag_r ctx).cells (cache_of flag_r ctx).len e)
                  (omega (
                    arith,
                    r.regs,
                    ap (λ c. free_from c num_op_regs 0) counts,
                    free-counted_up ctx new lo hi unused,
                  ));
          }
  ]

  -- `buxn_jit_pop_ex` of an item that is ready, in a register or in memory, fails no assertion: the
  -- operand's register holds the item, which is off its stack; the other operands, the rest of both
  -- stacks and the rest of the VM stay, and what was ready after it still is.
  pub pop_ex-Taken :
      (flag_r two s : Bool) (held : ℕ → ℕ) (ss : List Bool) (ctx : Ctx) (l o : List ℕ)
      → Sides m s0 flag_r held ctx l o
      → Ready flag_r two (s ∷ ss) ctx l
      → Ensures (Taken flag_r two s held ss ctx l o) (pop_ex s flag_r ctx)
  pop_ex-Taken flag_r two s held ss ctx l o v r =
      elim (Bool-cases ((cache_of flag_r ctx).len == 0)) [
        | inl none_cached ↦
            let e : (cache_of flag_r ctx).len ≡ 0 = ground arith in
            fetched-Taken flag_r two s held ss ctx l o v r e
        | inr some_cached ↦
            let ne : (cache_of flag_r ctx).len ≢ 0 = ground arith in
            cached-Taken flag_r two s held ss ctx l o v r ne
      ]

  -- `buxn_jit_pop`, in the opcode's own size
  pub pop_operand-Taken :
      (flag_r two : Bool) (held : ℕ → ℕ) (ss : List Bool) (ctx : Ctx) (l o : List ℕ)
      → Sides m s0 flag_r held ctx l o
      → Ready flag_r two (two ∷ ss) ctx l
      → Ensures (Taken flag_r two two held ss ctx l o) (pop_operand ctx)
  unfolding pop_operand
  pop_operand-Taken flag_r two held ss ctx l o v r =
      rw (r.side, r.mode) (pop_ex-Taken flag_r two two held ss ctx l o v r)
