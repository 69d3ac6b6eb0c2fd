-- ===== src/Refine/Start.antt =====
-- `buxn_jit_next_opcode` up to its dispatch, outside the keep mode: the opcode starts with exact
-- reference counts and holds nothing.
use buxn_jit.Prelude.{
  ℕ, zero, suc, ◌+◌, ◌-◌, ◌%◌, ◌^◌, ◌≤◌, ◌<◌, ◌≡◌, refl, ap, ◌∙◌, Bool, true, false, none, some,
  List, arith, update,
}
use buxn_jit.Lir.{r_op_min, r_op_max, s_wsp, s_rsp}
use buxn_jit.Ctx.{Cell, Cache, Ctx, cache_of, with_cache}
use buxn_jit.Regs.{retain_reg, op_flag_k}
use buxn_jit.Cache.Spill.{move_down}
use buxn_jit.Cache.Sweep.{count_flushed, retain_from, retain}
use buxn_jit.Refine.Ensures.{Ensures, >>=-run}
use buxn_jit.Refine.Cached.{cached, cached-congr, refs, up, refs_bottom, refs-congr}
use buxn_jit.Refine.Holds.{Fresh, Holds}
use buxn_jit.Refine.Inv.{Inv, Counted}
use buxn_jit.Refine.Item.{at}
use buxn_jit.Refine.Cell.{refs-le}
use buxn_jit.Machine.{Machine}
use buxn_jit.Opcodes.Control.{begin_opcode, leave_keep}
use buxn_jit.Refine.Alloc.{retain_reg-run, nothing_held}

count_flushed-fresh :
    (cells : ℕ → Cell) (n i : ℕ)
    → ((j : ℕ) → j < i + n → (cells j).need_flush ≡ true)
    → count_flushed cells n i ≡ 0
unfolding count_flushed
count_flushed-fresh cells zero i h = refl
count_flushed-fresh cells (suc n) i h =
    rw (h i (omega arith))
      (omega (arith, count_flushed-fresh cells n (i + 1) (λ j p. h j (omega arith))))

-- The counts after the cells from `i` on have been counted
abbrev pub retained_from : (ℕ → Cell) → ℕ → ℕ → (ℕ → ℕ) → ℕ → ℕ
retained_from cells zero i counts = counts
retained_from cells (suc n) i counts =
    let r = (cells i).value.reg in
    retained_from cells n (i + 1) (update counts (r - r_op_min) ((counts (r - r_op_min) + 1) % 256))

retain_from-run :
    (flag_r : Bool) (n i : ℕ) (ctx : Ctx)
    → ((j : ℕ) → j < i + n → r_op_min ≤ ((cache_of flag_r ctx).cells j).value.reg)
    → ((j : ℕ) → j < i + n → ((cache_of flag_r ctx).cells j).value.reg ≤ r_op_max)
    → retain_from flag_r n i ctx
      ≡ some (
        tt,
        record ctx {
          reg_ref_counts = retained_from (cache_of flag_r ctx).cells n i ctx.reg_ref_counts;
        },
      )
unfolding retain_from
retain_from-run flag_r zero i ctx lo hi = refl
retain_from-run true (suc n) i ctx lo hi =
    >>=-run (retain_reg (ctx.rst_cache.cells i).value.reg) _ ctx (
      retain_reg-run (ctx.rst_cache.cells i).value.reg ctx (lo i (omega arith))
        (hi i (omega arith)))
    ∙ retain_from-run true n (i + 1) _ (λ j p. lo j (omega arith)) (λ j p. hi j (omega arith))
retain_from-run false (suc n) i ctx lo hi =
    >>=-run (retain_reg (ctx.wst_cache.cells i).value.reg) _ ctx (
      retain_reg-run (ctx.wst_cache.cells i).value.reg ctx (lo i (omega arith))
        (hi i (omega arith)))
    ∙ retain_from-run false n (i + 1) _ (λ j p. lo j (omega arith)) (λ j p. hi j (omega arith))

-- Nothing of a fresh cache is dropped.
abbrev pub settled : Cache → Cache
settled cache = record { cells = move_down cache.cells 0 (cache.len - 0); len = cache.len - 0 }

abbrev pub recounted : Bool → Ctx → Ctx
recounted flag_r ctx =
    let cache = settled (cache_of flag_r ctx) in
    with_cache flag_r cache
      (record ctx { reg_ref_counts = retained_from cache.cells cache.len 0 ctx.reg_ref_counts })

pub settled_value :
    (cache : Cache) (i : ℕ) → i < cache.len → (settled cache).cells i ≡ cache.cells i
settled_value cache i h = ground arith

settled-Fresh : (cache : Cache) → Fresh cache → Fresh (settled cache)
settled-Fresh cache f = record {
  size = omega (arith, f.size);
  lo = λ i h. rw (settled_value cache i (omega arith)) (f.lo i (omega arith));
  hi = λ i h. rw (settled_value cache i (omega arith)) (f.hi i (omega arith));
  dirty = λ i h. rw (settled_value cache i (omega arith)) (f.dirty i (omega arith));
}

retain-run :
    (flag_r : Bool) (ctx : Ctx)
    → Fresh (cache_of flag_r ctx)
    → retain flag_r ctx ≡ some (tt, recounted flag_r ctx)
unfolding retain
retain-run true ctx f =
    let s = settled-Fresh ctx.rst_cache f in
    rw
      (count_flushed-fresh ctx.rst_cache.cells ctx.rst_cache.len 0 (λ j p. f.dirty j (omega arith)))
      (retain_from-run true (ctx.rst_cache.len - 0) 0 (with_cache true (settled ctx.rst_cache) ctx)
        (λ j p. s.lo j (omega arith)) (λ j p. s.hi j (omega arith)))
retain-run false ctx f =
    let s = settled-Fresh ctx.wst_cache f in
    rw
      (count_flushed-fresh ctx.wst_cache.cells ctx.wst_cache.len 0 (λ j p. f.dirty j (omega arith)))
      (retain_from-run false (ctx.wst_cache.len - 0) 0
        (with_cache false (settled ctx.wst_cache) ctx) (λ j p. s.lo j (omega arith))
        (λ j p. s.hi j (omega arith)))

-- The counts of a whole cache, which no byte overflows
retained-refs :
    (cells : ℕ → Cell) (n i : ℕ) (counts : ℕ → ℕ) (x : ℕ)
    → ((y : ℕ) → counts y + n ≤ 255)
    → retained_from cells n i counts x ≡ counts x + refs (λ j. cells (j + i)) n x
retained-refs cells zero i counts x h = omega arith
retained-refs cells (suc n) i counts x h =
    let k = (cells i).value.reg - r_op_min in
    let counts' = update counts k ((counts k + 1) % 256) in
    let bound : (y : ℕ) → counts' y + n ≤ 255 = λ y. ground (arith, h y, h k) in
    ground (
      arith,
      h k,
      retained-refs cells n (i + 1) counts' x bound,
      refs_bottom (λ j. cells (j + i)) n x,
      refs-congr (up (λ j. cells (j + i))) (λ j. cells (j + (i + 1))) n x
          (λ j p. ap (λ q. (cells q).value) (omega arith)),
    )

-- The context in which an opcode outside the keep mode is compiled
abbrev pub started : Ctx → Ctx
started ctx = record (recounted true (recounted false (record ctx { reg_ref_counts = λ i. 0 }))) {
  current_opcode = ctx.image ctx.pc;
  pc = (ctx.pc + 1) % 2 ^ 16;
  shadow = none;
  wsp_reg = s_wsp;
  rsp_reg = s_rsp;
}

pub begin_opcode-run :
    (ctx : Ctx)
    → Fresh ctx.wst_cache
    → Fresh ctx.rst_cache
    → op_flag_k (ctx.image ctx.pc) ≡ false
    → begin_opcode ctx ≡ some (tt, started ctx)
unfolding begin_opcode leave_keep
begin_opcode-run ctx fw fr mode =
    let ctx0 : Ctx = record ctx { reg_ref_counts = λ i. 0 } in
    >>=-run (retain false) _ ctx0 (retain-run false ctx0 fw)
    ∙ >>=-run (retain true) _ (recounted false ctx0) (retain-run true (recounted false ctx0) fr)
    ∙ rw mode

refs-shift : (cells : ℕ → Cell) (n x : ℕ) → refs (λ j. cells (j + 0)) n x ≡ refs cells n x
refs-shift cells n x =
    refs-congr cells (λ j. cells (j + 0)) n x (λ j p. ap (λ q. (cells q).value) (omega arith))

module _ (m : Machine) (s0 : m.State) where
  settled-Holds :
      (flag_r : Bool) (s : m.State) (cache : Cache) (l : List ℕ)
      → Holds m flag_r s cache l
      → Holds m flag_r s (settled cache) l
  settled-Holds flag_r s cache l h =
      let len : cache.len - 0 ≡ cache.len = omega arith in
      let same : cached (m.reg_of s) ((settled cache).cells) (cache.len - 0)
          ≡ cached (m.reg_of s) cache.cells cache.len =
        cached-congr (m.reg_of s) (m.reg_of s) cache.cells ((settled cache).cells) (cache.len - 0)
          (λ i p. ap (λ (c : Cell). c.value) (settled_value cache i (omega arith))) (λ i p. refl)
        ∙ ap (cached (m.reg_of s) cache.cells) len in
      record {
        rest = h.rest;
        split = rw same h.split;
        below = h.below;
        exact = λ i p. rw (settled_value cache i (omega arith)) (h.exact i (omega arith));
      }

  -- An opcode about to be dispatched
  pub record Started (ctx : Ctx) (w r : List ℕ) (ctx' : Ctx) : Type 0 where
    pub inv : Inv m s0 nothing_held ctx' w r
    pub shadow : ctx'.shadow ≡ none
    pub opcode : ctx'.current_opcode ≡ ctx.image ctx.pc
    pub pc : ctx'.pc ≡ (ctx.pc + 1) % 2 ^ 16
    pub pointers : (ctx'.wsp_reg ≡ s_wsp) × (ctx'.rsp_reg ≡ s_rsp)

  started-Counted :
      (ctx : Ctx) → Fresh ctx.wst_cache → Fresh ctx.rst_cache → Counted nothing_held (started ctx)
  started-Counted ctx fw fr x =
      let wst = settled ctx.wst_cache in
      let rst = settled ctx.rst_cache in
      let counts = retained_from wst.cells wst.len 0 (λ i. 0) in
      let first : (y : ℕ) → counts y ≡ refs wst.cells wst.len y = λ y. omega (
        arith,
        retained-refs wst.cells wst.len 0 (λ i. 0) y (λ z. omega (arith, fw.size)),
        refs-shift wst.cells wst.len y,
      ) in
      let low : (y : ℕ) → counts y + rst.len ≤ 255 =
        λ y. omega (arith, first y, refs-le wst.cells wst.len y, fw.size, fr.size) in
      omega (
        arith,
        retained-refs rst.cells rst.len 0 counts x low,
        refs-shift rst.cells rst.len x,
        first x,
      )

  pub started-Started :
      (held : ℕ → ℕ) (ctx : Ctx) (w r : List ℕ)
      → Inv m s0 held ctx w r
      → Started ctx w r (started ctx)
  started-Started held ctx w r v = record {
    inv = record {
      anchored = record { vm = v.anchored.vm; base = v.anchored.base };
      wst = settled-Holds false (at m s0 ctx) ctx.wst_cache w v.wst;
      rst = settled-Holds true (at m s0 ctx) ctx.rst_cache r v.rst;
      wst_fresh = settled-Fresh ctx.wst_cache v.wst_fresh;
      rst_fresh = settled-Fresh ctx.rst_cache v.rst_fresh;
      counted = started-Counted ctx v.wst_fresh v.rst_fresh;
      wst_bound = v.wst_bound;
      rst_bound = v.rst_bound;
    };
    shadow = refl;
    opcode = refl;
    pc = refl;
    pointers = (refl, refl);
  }

  -- Under the invariant, whatever operands the opcode before still held, an opcode outside the
  -- keep mode starts with exact counts and no register held, both stacks as they were, and the
  -- VM's own stack pointers.
  pub begin_opcode-Started :
      (held : ℕ → ℕ) (ctx : Ctx) (w r : List ℕ)
      → Inv m s0 held ctx w r
      → op_flag_k (ctx.image ctx.pc) ≡ false
      → Ensures (λ _. Started ctx w r) (begin_opcode ctx)
  begin_opcode-Started held ctx w r v mode =
      rw (begin_opcode-run ctx v.wst_fresh v.rst_fresh mode) (started-Started held ctx w r v)
