-- ===== src/Refine/Clear.antt =====
-- `buxn_jit_clear_stack_caches`, which precedes every way out of a block: all of both stacks is in
-- memory afterwards.
use buxn_jit.Prelude.{ℕ, zero, suc, ◌+◌, ◌%◌, ◌≡◌, refl, Bool, true, false, List, arith}
use buxn_jit.Lir.{s_wsp, s_rsp, ws, rs}
use buxn_jit.Ctx.{Ctx, cache_of}
use buxn_jit.Cache.Spill.{spill}
use buxn_jit.Cache.Sweep.{clear_rounds, clear, clear_stack_caches}
use buxn_jit.Machine.{Machine}
use buxn_jit.Refine.Below.{Below}
use buxn_jit.Refine.Ensures.{Ensures, Ensures-bind, Ensures-mono, Ensures-run}
use buxn_jit.Refine.Item.{at}
use buxn_jit.Refine.Spill.{spilled}
use buxn_jit.Refine.Holds.{Holds-empty}
use buxn_jit.Refine.Inv.{Inv, Frame, Frame-refl, Frame-trans, spill-Spilled}

module _ (m : Machine) (s0 : m.State) where
  open m use {State, reg_of, cell}

  -- After `n` cells of one cache have been spilled
  record Swept (flag_r : Bool) (held : ℕ → ℕ) (ctx : Ctx) (w r : List ℕ) (n : ℕ) (ctx' : Ctx)
      : Type 0 where
    inv : Inv m s0 held ctx' w r
    frame : Frame m s0 ctx ctx'
    own : (cache_of flag_r ctx').len ≡ 0
    total : ctx'.wst_cache.len + ctx'.rst_cache.len + n ≡ ctx.wst_cache.len + ctx.rst_cache.len

  clear_rounds-Swept :
      (flag_r : Bool) (held : ℕ → ℕ) (w r : List ℕ) (n : ℕ) (ctx : Ctx)
      → Inv m s0 held ctx w r
      → (cache_of flag_r ctx).len ≡ n
      → Ensures (λ _. Swept flag_r held ctx w r n) (clear_rounds flag_r n ctx)
  unfolding clear_rounds
  clear_rounds-Swept flag_r held w r zero ctx v e = record {
    inv = v;
    frame = Frame-refl m s0 ctx;
    own = e;
    total = omega arith;
  }
  clear_rounds-Swept flag_r held w r (suc n) ctx v e =
      let step = spill-Spilled m s0 flag_r held ctx w r v (omega arith) in
      let next = spilled flag_r ctx in
      let done = step.1 in
      Ensures-run (spill flag_r) (λ _. clear_rounds flag_r n) ctx _ step.0
        (Ensures-mono _ _ (clear_rounds flag_r n next)
          (clear_rounds-Swept flag_r held w r n next done.inv (omega (arith, done.own)))
          (λ _ ctx' t. record {
            inv = t.inv;
            frame = Frame-trans m s0 ctx next ctx' done.frame t.frame;
            own = t.own;
            total = omega (arith, done.fewer, t.total);
          }))

  -- Nothing is lost, and nothing is left in a register.
  pub record Cleared (held : ℕ → ℕ) (ctx : Ctx) (w r : List ℕ) (ctx' : Ctx) : Type 0 where
    pub inv : Inv m s0 held ctx' w r
    pub frame : Frame m s0 ctx ctx'
    pub wst_empty : ctx'.wst_cache.len ≡ 0
    pub rst_empty : ctx'.rst_cache.len ≡ 0

  -- Clearing never fails an assertion, and afterwards both caches are empty, with both stacks as
  -- they were.
  pub clear_stack_caches-Cleared :
      (held : ℕ → ℕ) (ctx : Ctx) (w r : List ℕ)
      → Inv m s0 held ctx w r
      → Ensures (λ _. Cleared held ctx w r) (clear_stack_caches ctx)
  unfolding clear_stack_caches
  clear_stack_caches-Cleared held ctx w r v =
      Ensures-bind (clear false) (λ _. clear true) ctx _ _
        (clear_rounds-Swept false held w r ctx.wst_cache.len ctx v refl)
        λ _ ctx1 p.
          Ensures-mono _ _ (clear_rounds true ctx1.rst_cache.len ctx1)
            (clear_rounds-Swept true held w r ctx1.rst_cache.len ctx1 p.inv refl)
            λ _ ctx2 q. record {
              inv = q.inv;
              frame = Frame-trans m s0 ctx ctx1 ctx2 p.frame q.frame;
              wst_empty = omega (arith, p.own, q.own, q.total);
              rst_empty = q.own;
            }

  -- The two stacks as the interpreter finds them: all in the VM's memory, below its pointers
  abbrev pub InMemory : State → List ℕ → List ℕ → Type 0
  InMemory s w r =
      Below (cell s ws) (reg_of s s_wsp % 256) w × Below (cell s rs) (reg_of s s_rsp % 256) r

  -- From a context that satisfies the invariant, `buxn_jit_clear_stack_caches` fails no assertion,
  -- and the code emitted writes both stacks to memory, whole and in order, and changes neither the
  -- operand registers nor the rest of the VM.
  pub clear_stack_caches_lem :
      (held : ℕ → ℕ) (ctx : Ctx) (w r : List ℕ)
      → Inv m s0 held ctx w r
      → Ensures
          (λ _ ctx'. InMemory (at m s0 ctx') w r × Frame m s0 ctx ctx')
          (clear_stack_caches ctx)
  clear_stack_caches_lem held ctx w r v =
      Ensures-mono _ _ (clear_stack_caches ctx) (clear_stack_caches-Cleared held ctx w r v)
        λ _ ctx' c. (
          (
            Holds-empty m false (at m s0 ctx') ctx'.wst_cache w c.wst_empty c.inv.wst,
            Holds-empty m true (at m s0 ctx') ctx'.rst_cache r c.rst_empty c.inv.rst,
          ),
          c.frame,
        )
