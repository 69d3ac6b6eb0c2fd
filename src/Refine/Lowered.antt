-- ===== src/Refine/Lowered.antt =====
-- `buxn_jit_stack_cache_discard` of an item in memory.
use buxn_jit.Prelude.{
  ℕ, ◌+◌, ◌-◌, ◌*◌, ◌%◌, ◌^◌, ◌<◌, ◌≤◌, ◌≡◌, ◌≢◌, refl, sym, ap, ◌∙◌, Bool, true, false, some, List,
  ◌∷◌, ◌++◌, arith, length, length-append, ◌==◌, if◌then◌else◌,
}
use buxn_jit.Lir.{Field, r_mem_base, s_vm, reg, imm, op2, sub}
use buxn_jit.Ctx.{Cache, Ctx, cache_of, stack_field, saved_ptr_reg, stack_ptr_reg}
use buxn_jit.Cache.Pop.{discard, discard_byte, discard_from_mem}
use buxn_jit.Micro.Stack.{size, width}
use buxn_jit.Machine.{Machine, exec}
use buxn_jit.Refine.Below.{Below, Below-congr}
use buxn_jit.Refine.Shape.{Shaped-caches}
use buxn_jit.Refine.Push.{item_bytes}
use buxn_jit.Refine.Item.{at, Anchored}
use buxn_jit.Refine.Holds.{Holds, Fresh, Holds-empty, saved_ptr-gt_op}
use buxn_jit.Refine.Reading.{top_byte, top_short}
use buxn_jit.Refine.Side.{Sides}
use buxn_jit.Refine.Compute.{base_kept}
use buxn_jit.Refine.Cached.{cached}
use buxn_jit.Refine.Fetch.{vm_apart, Holds-kept}
use buxn_jit.Refine.Dropped.{Gone}

-- The context after an item in memory is discarded
abbrev pub lowered : Bool → Bool → Ctx → Ctx
lowered flag_r two ctx =
    let sp = saved_ptr_reg flag_r in
    record ctx { code = op2 sub sp (reg sp) (imm (size two)) ∷ ctx.code }

pub discard-lowered :
    (flag_r two : Bool) (ctx : Ctx)
    → (cache_of flag_r ctx).len ≡ 0
    → stack_ptr_reg flag_r ctx ≡ saved_ptr_reg flag_r
    → discard flag_r two ctx ≡ some (tt, lowered flag_r two ctx)
unfolding discard discard_byte discard_from_mem
discard-lowered true true ctx e p = rw (e, p)
discard-lowered true false ctx e p = rw (e, p)
discard-lowered false true ctx e p = rw (e, p)
discard-lowered false false ctx e p = rw (e, p)

-- The top item of a stack in memory, and the pointer below it
drop_item :
    (two : Bool) (cells : ℕ → ℕ) (p q : ℕ) (l : List ℕ)
    → ((i : ℕ) → cells i < 2 ^ 8)
    → size two ≤ length l
    → q % 256 ≡ (p + 256 - size two) % 256
    → Below cells (p % 256) l
    → (v : ℕ) × (rest : List ℕ) × (l ≡ item_bytes two v ++ rest)
      × (v < width two)
      × Below cells (q % 256) rest
drop_item true cells p q l bytes h e below =
    let low = cells ((p % 256 + 255) % 256) in
    let high = cells (((p % 256 + 255) % 256 + 255) % 256) in
    let hl = bytes ((p % 256 + 255) % 256) in
    let hh = bytes (((p % 256 + 255) % 256 + 255) % 256) in
    let (rest, item, left) =
      top_short cells (p % 256) low high (high * 256 + low) (q % 256) l h below hl hh refl refl refl
        (omega arith) in
    (high * 256 + low, rest, item, omega arith, left)
drop_item false cells p q l bytes h e below =
    let low = cells ((p % 256 + 255) % 256) in
    let hl = bytes ((p % 256 + 255) % 256) in
    let (rest, item, left) =
      top_byte cells (p % 256) low (q % 256) l h below hl refl (omega arith) in
    (low, rest, item, hl, left)

module _ (m : Machine) (s0 : m.State) where
  open m use {State, reg_of, cell}

  -- Only the pointer moves.
  lowered_regs :
      (flag_r two : Bool) (ctx : Ctx) (x : ℕ)
      → reg_of (at m s0 (lowered flag_r two ctx)) x ≡ (
          if saved_ptr_reg flag_r == x
          then (reg_of (at m s0 ctx) (saved_ptr_reg flag_r) + 2 ^ 64 - size two) % 2 ^ 64
          else reg_of (at m s0 ctx) x)
  unfolding exec
  lowered_regs flag_r two ctx x = m.reg_op2 _ _ _ _ _ _

  lowered_cells :
      (flag_r two : Bool) (ctx : Ctx) (f : Field) (j : ℕ)
      → cell (at m s0 (lowered flag_r two ctx)) f j ≡ cell (at m s0 ctx) f j
  unfolding exec
  lowered_cells flag_r two ctx f j = m.cell_op2 _ _ _ _ _ _ _

  lowered_ptr :
      (flag_r two : Bool) (ctx : Ctx)
      → reg_of (at m s0 (lowered flag_r two ctx)) (saved_ptr_reg flag_r) % 256
        ≡ (reg_of (at m s0 ctx) (saved_ptr_reg flag_r) + 256 - size two) % 256
  lowered_ptr flag_r true ctx = ground (arith, lowered_regs flag_r true ctx (saved_ptr_reg flag_r))
  lowered_ptr flag_r false ctx =
      ground (arith, lowered_regs flag_r false ctx (saved_ptr_reg flag_r))

  lowered_kept :
      (flag_r two : Bool) (ctx : Ctx) (x : ℕ)
      → x ≢ saved_ptr_reg flag_r
      → reg_of (at m s0 (lowered flag_r two ctx)) x ≡ reg_of (at m s0 ctx) x
  lowered_kept flag_r two ctx x h = ground (arith, lowered_regs flag_r two ctx x)

  lowered-Anchored :
      (flag_r two : Bool) (ctx : Ctx) → Anchored m s0 ctx → Anchored m s0 (lowered flag_r two ctx)
  lowered-Anchored flag_r two ctx a = record {
    vm = lowered_kept flag_r two ctx s_vm (vm_apart flag_r) ∙ a.vm;
    base =
        base_kept m s0 ctx.mem_base (at m s0 ctx) (at m s0 (lowered flag_r two ctx))
          (lowered_kept flag_r two ctx r_mem_base (omega (arith, saved_ptr-gt_op flag_r))) a.base;
  }

  -- The other stack does not notice.
  lowered-Holds :
      (flag_r side two : Bool) (ctx : Ctx) (cache : Cache) (l : List ℕ)
      → saved_ptr_reg side ≢ saved_ptr_reg flag_r
      → Fresh cache
      → Holds m side (at m s0 ctx) cache l
      → Holds m side (at m s0 (lowered flag_r two ctx)) cache l
  lowered-Holds flag_r side two ctx cache l apart f h =
      Holds-kept m side (at m s0 ctx) (at m s0 (lowered flag_r two ctx)) cache l
        (λ i p.
          lowered_kept flag_r two ctx (cache.cells i).value.reg
            (omega (arith, saved_ptr-gt_op flag_r, f.hi i p)))
        (lowered_kept flag_r two ctx (saved_ptr_reg side) apart)
        (λ j. lowered_cells flag_r two ctx (stack_field side) j) h

  pub lowered-Gone :
      (flag_r two : Bool) (held : ℕ → ℕ) (ctx : Ctx) (l o : List ℕ)
      → (cache_of flag_r ctx).len ≡ 0
      → size two ≤ length l
      → Sides m s0 flag_r held ctx l o
      → Gone m s0 flag_r two held ctx l o (lowered flag_r two ctx)
  lowered-Gone true two held ctx l o e h v =
      let c = cell (at m s0 ctx) (stack_field true) in
      let c' = cell (at m s0 (lowered true two ctx)) (stack_field true) in
      let sp = saved_ptr_reg true in
      let q = reg_of (at m s0 (lowered true two ctx)) sp in
      let (x, rest, item, fits, below) =
        drop_item two c (reg_of (at m s0 ctx) sp) q l (m.cell_byte (at m s0 ctx) (stack_field true))
          h (lowered_ptr true two ctx) (Holds-empty m true (at m s0 ctx) ctx.rst_cache l e v.rst) in
      record {
        v = x;
        rest = rest;
        item = item;
        fits = fits;
        inv = record {
          anchored = lowered-Anchored true two ctx v.anchored;
          rst = record {
            rest = rest;
            split =
                ap
                  (λ k.
                    cached (reg_of (at m s0 (lowered true two ctx))) ctx.rst_cache.cells k ++ rest)
                  (sym e);
            below =
                Below-congr c c' (q % 256) rest (lowered_cells true two ctx (stack_field true))
                  below;
            exact = λ i p. absurd (omega arith);
          };
          wst = lowered-Holds true false two ctx ctx.wst_cache o (omega arith) v.wst_fresh v.wst;
          wst_fresh = v.wst_fresh;
          rst_fresh = v.rst_fresh;
          counted = v.counted;
          rst_bound =
              omega (arith, v.rst_bound, ap length item, length-append (item_bytes two x) rest);
          wst_bound = v.wst_bound;
        };
        kept = λ y lo hi. lowered_kept true two ctx y (omega arith);
        shape = λ t. Shaped-caches true t ctx (lowered true two ctx) refl refl;
        quiet = record {
          mode = record { pc = refl; opcode = refl; shadow = refl; wsp_reg = refl; rsp_reg = refl };
          others = λ f j p k. lowered_cells true two ctx f j;
        };
      }
  lowered-Gone false two held ctx l o e h v =
      let c = cell (at m s0 ctx) (stack_field false) in
      let c' = cell (at m s0 (lowered false two ctx)) (stack_field false) in
      let sp = saved_ptr_reg false in
      let q = reg_of (at m s0 (lowered false two ctx)) sp in
      let (x, rest, item, fits, below) =
        drop_item two c (reg_of (at m s0 ctx) sp) q l
          (m.cell_byte (at m s0 ctx) (stack_field false)) h (lowered_ptr false two ctx)
          (Holds-empty m false (at m s0 ctx) ctx.wst_cache l e v.wst) in
      record {
        v = x;
        rest = rest;
        item = item;
        fits = fits;
        inv = record {
          anchored = lowered-Anchored false two ctx v.anchored;
          wst = record {
            rest = rest;
            split =
                ap
                  (λ k.
                    cached (reg_of (at m s0 (lowered false two ctx))) ctx.wst_cache.cells k ++ rest)
                  (sym e);
            below =
                Below-congr c c' (q % 256) rest (lowered_cells false two ctx (stack_field false))
                  below;
            exact = λ i p. absurd (omega arith);
          };
          rst = lowered-Holds false true two ctx ctx.rst_cache o (omega arith) v.rst_fresh v.rst;
          wst_fresh = v.wst_fresh;
          rst_fresh = v.rst_fresh;
          counted = v.counted;
          wst_bound =
              omega (arith, v.wst_bound, ap length item, length-append (item_bytes two x) rest);
          rst_bound = v.rst_bound;
        };
        kept = λ y lo hi. lowered_kept false two ctx y (omega arith);
        shape = λ t. Shaped-caches false t ctx (lowered false two ctx) refl refl;
        quiet = record {
          mode = record { pc = refl; opcode = refl; shadow = refl; wsp_reg = refl; rsp_reg = refl };
          others = λ f j p k. lowered_cells false two ctx f j;
        };
      }
