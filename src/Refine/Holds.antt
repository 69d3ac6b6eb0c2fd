-- ===== src/Refine/Holds.antt =====
-- One stack of the VM, as the items of its cache on top of those in memory, and how it fares when
-- a cell is spilled.
use buxn_jit.Prelude.{
  ℕ, suc, ◌+◌, ◌-◌, ◌%◌, ◌<◌, ◌≤◌, ◌≡◌, ◌≢◌, refl, ap, ◌∙◌, Bool, true, false, List, ◌++◌, arith,
  length, length-append,
}
use mathlib.Core.List.{append_assoc}
use buxn_jit.Lir.{same_field, r_op_min, r_op_max}
use buxn_jit.Ctx.{Operand, Cell, Cache, Ctx, cache_of, saved_ptr_reg, stack_field, cache_size}
use buxn_jit.Micro.Stack.{width}
use buxn_jit.Machine.{Machine}
use buxn_jit.Refine.Below.{Below, Below-congr}
use buxn_jit.Refine.Push.{item_bytes, length-item_bytes, saved_ptr-gt}
use buxn_jit.Refine.Item.{at, stored}
use buxn_jit.Refine.Written.{Written}
use buxn_jit.Refine.Cached.{cached, up, cached_bottom, cached-congr, refs, refs_bottom, refs-congr}
use buxn_jit.Refine.Spill.{spilled_cache}

-- The cells in use are in operand registers, and none is in memory yet.
pub record Fresh (cache : Cache) : Type 0 where
  pub size : cache.len ≤ cache_size
  pub lo : (i : ℕ) → i < cache.len → r_op_min ≤ (cache.cells i).value.reg
  pub hi : (i : ℕ) → i < cache.len → (cache.cells i).value.reg ≤ r_op_max
  pub dirty : (i : ℕ) → i < cache.len → (cache.cells i).need_flush ≡ true

pub spilled_cell :
    (cache : Cache) (i : ℕ) → i < cache.len - 1 → (spilled_cache cache).cells i ≡ up cache.cells i
spilled_cell cache i h = ground arith

pub spilled-Fresh : (cache : Cache) → Fresh cache → Fresh (spilled_cache cache)
spilled-Fresh cache f = record {
  size = omega (arith, f.size);
  lo = λ i h. rw (spilled_cell cache i h) (f.lo (suc i) (omega arith));
  hi = λ i h. rw (spilled_cell cache i h) (f.hi (suc i) (omega arith));
  dirty = λ i h. rw (spilled_cell cache i h) (f.dirty (suc i) (omega arith));
}

pub refs-spilled :
    (cache : Cache) (x : ℕ)
    → cache.len ≢ 0
    → refs cache.cells cache.len x
      ≡ refs ((spilled_cache cache).cells) (cache.len - 1) x + refs cache.cells 1 x
refs-spilled cache x h =
    let n = cache.len - 1 in
    let e : cache.len ≡ suc n = omega arith in
    omega (
      arith,
      ap (λ k. refs cache.cells k x) e,
      refs_bottom cache.cells n x,
      refs-congr (up cache.cells) ((spilled_cache cache).cells) n x
          (λ i p. ap (λ (c : Cell). c.value) (spilled_cell cache i p)),
    )

pub saved_ptr-gt_op : (flag_r : Bool) → r_op_max < saved_ptr_reg flag_r
saved_ptr-gt_op true = omega arith
saved_ptr-gt_op false = omega arith

module _ (m : Machine) where
  open m use {State, reg_of, cell}

  pub record Holds (flag_r : Bool) (s : State) (cache : Cache) (l : List ℕ) : Type 0 where
    pub rest : List ℕ
    pub split : l ≡ cached (reg_of s) cache.cells cache.len ++ rest
    pub below : Below (cell s (stack_field flag_r)) (reg_of s (saved_ptr_reg flag_r) % 256) rest
    pub exact :
        (i : ℕ)
        → i < cache.len
        → reg_of s (cache.cells i).value.reg < width (cache.cells i).value.is_short

  -- With an empty cache all of the stack is in memory.
  pub Holds-empty :
      (flag_r : Bool) (s : State) (cache : Cache) (l : List ℕ)
      → cache.len ≡ 0
      → Holds flag_r s cache l
      → Below (cell s (stack_field flag_r)) (reg_of s (saved_ptr_reg flag_r) % 256) l
  Holds-empty flag_r s cache l e h =
      let all : l ≡ h.rest = h.split ∙ ap (λ n. cached (reg_of s) cache.cells n ++ h.rest) e in
      rw all h.below

module _ (m : Machine) (s0 : m.State) (flag_r : Bool) (ctx : Ctx) (l : List ℕ) where
  open m use {State, reg_of, cell}

  -- The stack whose cell was spilled: it has the same items, one more of them in memory.
  pub spilled-Holds :
      let cache = cache_of flag_r ctx in
      let bottom = (cache.cells 0).value in
      Fresh cache
      → cache.len ≢ 0
      → length l ≤ 256
      → Written m s0 flag_r bottom ctx
      → Holds m flag_r (at m s0 ctx) cache l
      → Holds m flag_r (at m s0 (stored flag_r bottom ctx)) (spilled_cache cache) l
  spilled-Holds f ne bound w h =
      let cache = cache_of flag_r ctx in
      let bottom = (cache.cells 0).value in
      let n = cache.len - 1 in
      let regs = reg_of (at m s0 ctx) in
      let regs' = reg_of (at m s0 (stored flag_r bottom ctx)) in
      let item = item_bytes bottom.is_short (regs bottom.reg) in
      let len : cache.len ≡ suc n = omega arith in
      let kept : cached regs' ((spilled_cache cache).cells) n ≡ cached regs (up cache.cells) n =
        cached-congr regs regs' (up cache.cells) ((spilled_cache cache).cells) n
          (λ i p. ap (λ (c : Cell). c.value) (spilled_cell cache i p))
          (λ i p.
            w.regs (cache.cells (suc i)).value.reg (omega (arith, f.lo (suc i) (omega arith)))
              (omega (arith, saved_ptr-gt_op flag_r, f.hi (suc i) (omega arith)))) in
      let whole : cached regs cache.cells cache.len ≡ cached regs (up cache.cells) n ++ item =
        ap (cached regs cache.cells) len ∙ cached_bottom regs cache.cells n in
      let split : l ≡ cached regs' ((spilled_cache cache).cells) n ++ (item ++ h.rest) =
        h.split ∙ rw (whole, kept) (append_assoc (cached regs (up cache.cells) n) item h.rest) in
      record {
        rest = item ++ h.rest;
        split = split;
        below =
            w.below h.rest
              (omega (
                arith,
                ap length split,
                length-append (cached regs' ((spilled_cache cache).cells) n) (item ++ h.rest),
                length-append item h.rest,
                length-item_bytes bottom.is_short (regs bottom.reg),
              ))
              h.below;
        exact = λ i p. rw (spilled_cell cache i p) (
            rw
              (w.regs (cache.cells (suc i)).value.reg (omega (arith, f.lo (suc i) (omega arith)))
                (omega (arith, saved_ptr-gt_op flag_r, f.hi (suc i) (omega arith))))
              (h.exact (suc i) (omega arith)));
      }

  -- The other stack, at whatever side it is
  pub other-Holds :
      (side : Bool) (cache : Cache) (operand : Operand)
      → saved_ptr_reg flag_r ≢ saved_ptr_reg side
      → same_field (stack_field flag_r) (stack_field side) ≡ false
      → Fresh cache
      → Written m s0 flag_r operand ctx
      → Holds m side (at m s0 ctx) cache l
      → Holds m side (at m s0 (stored flag_r operand ctx)) cache l
  other-Holds side cache operand ne apart f w h =
      let s = at m s0 ctx in
      let s' = at m s0 (stored flag_r operand ctx) in
      let kept : cached (reg_of s') cache.cells cache.len
          ≡ cached (reg_of s) cache.cells cache.len =
        cached-congr (reg_of s) (reg_of s') cache.cells cache.cells cache.len (λ i p. refl)
          (λ i p.
            w.regs (cache.cells i).value.reg (omega (arith, f.lo i p))
              (omega (arith, saved_ptr-gt_op flag_r, f.hi i p))) in
      let pointer : reg_of s' (saved_ptr_reg side) ≡ reg_of s (saved_ptr_reg side) =
        w.regs (saved_ptr_reg side) (saved_ptr-gt side) ne in
      record {
        rest = h.rest;
        split = rw kept h.split;
        below = rw pointer (
            Below-congr (cell s (stack_field side)) (cell s' (stack_field side)) _ h.rest
              (λ j. w.others (stack_field side) j apart) h.below);
        exact = λ i p.
            rw
              (w.regs (cache.cells i).value.reg (omega (arith, f.lo i p))
                (omega (arith, saved_ptr-gt_op flag_r, f.hi i p)))
              (h.exact i p);
      }
