-- ===== src/Refine/Cell.antt =====
-- `buxn_jit_stack_cache_push`: the item is the new top of its stack, in its register.
use buxn_jit.Prelude.{
  ℕ, zero, suc, ◌+◌, ◌-◌, ◌<◌, ◌≤◌, ◌≡◌, refl, sym, ap, ◌∙◌, Bool, true, false, List, ◌++◌, arith,
  length, leb, ◌==◌, if◌then◌else◌, Bool-cases, inl, inr,
}
use mathlib.Core.List.{append_assoc}
use buxn_jit.Lir.{r_op_min, r_op_max}
use buxn_jit.Ctx.{Operand, Cell, Cache, Ctx, cache_of, cache_size}
use buxn_jit.Cache.Spill.{push_cell}
use buxn_jit.Micro.Stack.{width}
use buxn_jit.Machine.{Machine}
use buxn_jit.Refine.Shape.{Flat, Shaped, Shaped-trans}
use buxn_jit.Refine.Ensures.{Ensures}
use buxn_jit.Refine.Push.{item_bytes}
use buxn_jit.Refine.Item.{at}
use buxn_jit.Refine.Cached.{cached, cached-congr, refs, refs-congr}
use buxn_jit.Refine.Spill.{spilled}
use buxn_jit.Refine.Holds.{Fresh, Holds}
use buxn_jit.Refine.Inv.{Inv, Frame, Frame-refl, Frame-caches, spill-Spilled}
use buxn_jit.Refine.Room.{added, pushed, push_cell-run, push_cell-full}

added-Fresh :
    (cache : Cache) (operand : Operand)
    → Fresh cache
    → cache.len < cache_size
    → r_op_min ≤ operand.reg
    → operand.reg ≤ r_op_max
    → Fresh (added cache operand)
added-Fresh cache operand f h lo hi = record {
  size = omega arith;
  lo = λ i p. ground (arith, f.lo i);
  hi = λ i p. ground (arith, f.hi i);
  dirty = λ i p. ground (arith, f.dirty i);
}

added_below :
    (cache : Cache) (operand : Operand) (i : ℕ)
    → i < cache.len
    → ((added cache operand).cells i).value ≡ (cache.cells i).value
added_below cache operand i h = ground arith

added_top :
    (cache : Cache) (operand : Operand) → ((added cache operand).cells cache.len).value ≡ operand
added_top cache operand = ground arith

pub refs-added :
    (cache : Cache) (operand : Operand) (x : ℕ)
    → refs ((added cache operand).cells) (cache.len + 1) x
      ≡ (if operand.reg - r_op_min == x then 1 else 0) + refs cache.cells cache.len x
refs-added cache operand x =
    let n = cache.len in
    let e : n + 1 ≡ suc n = omega arith in
    ap (λ k. refs ((added cache operand).cells) k x) e
    ∙ rw (
      added_top cache operand,
      refs-congr cache.cells ((added cache operand).cells) n x (added_below cache operand),
    )

pub cached-added :
    (regs : ℕ → ℕ) (cache : Cache) (operand : Operand)
    → cached regs ((added cache operand).cells) (cache.len + 1)
      ≡ item_bytes operand.is_short (regs operand.reg) ++ cached regs cache.cells cache.len
cached-added regs cache operand =
    let n = cache.len in
    let e : n + 1 ≡ suc n = omega arith in
    ap (cached regs ((added cache operand).cells)) e
    ∙ rw (
      added_top cache operand,
      cached-congr regs regs cache.cells ((added cache operand).cells) n (added_below cache operand)
          (λ i p. refl),
    )

pub refs-le : (cells : ℕ → Cell) (n x : ℕ) → refs cells n x ≤ n
refs-le cells zero x = omega arith
refs-le cells (suc n) x = ground (arith, refs-le cells n x)

-- The number of bytes tells the size.
short_of :
    (short two : Bool) (v : ℕ)
    → length (item_bytes short v) ≡ length (item_bytes two 0)
    → short ≡ two
short_of true true v e = refl
short_of true false v e = absurd (omega arith)
short_of false true v e = absurd (omega arith)
short_of false false v e = refl

added-Flat :
    (cache : Cache) (two : Bool) (operand : Operand)
    → operand.is_short ≡ two
    → Flat two cache
    → Flat two (added cache operand)
added-Flat cache two operand e f i p = elim (Bool-cases (cache.len == i)) [
  | inl here ↦ rw here e
  | inr below ↦ rw below (f i (ground arith))
]

pushed-Shaped :
    (flag_r two : Bool) (operand : Operand) (ctx : Ctx)
    → operand.is_short ≡ two
    → Shaped flag_r two ctx (pushed flag_r operand ctx)
pushed-Shaped true two operand ctx e = record {
  flat = added-Flat ctx.rst_cache two operand e;
  other = omega arith;
}
pushed-Shaped false two operand ctx e = record {
  flat = added-Flat ctx.wst_cache two operand e;
  other = omega arith;
}

-- Both stacks after a push on one of them
abbrev pub on_wst : Bool → List ℕ → List ℕ → List ℕ
on_wst true bytes w = w
on_wst false bytes w = bytes ++ w

abbrev pub on_rst : Bool → List ℕ → List ℕ → List ℕ
on_rst true bytes r = bytes ++ r
on_rst false bytes r = r

module _ (m : Machine) (s0 : m.State) where
  added-Holds :
      (flag_r : Bool) (s : m.State) (cache : Cache) (operand : Operand) (l : List ℕ)
      → m.reg_of s operand.reg < width operand.is_short
      → Holds m flag_r s cache l
      → Holds m flag_r s
          (added cache operand)
          (item_bytes operand.is_short (m.reg_of s operand.reg) ++ l)
  added-Holds flag_r s cache operand l fits h =
      let item = item_bytes operand.is_short (m.reg_of s operand.reg) in
      record {
        rest = h.rest;
        split =
            ap (λ t. item ++ t) h.split
            ∙ rw (cached-added (m.reg_of s) cache operand)
                (sym (append_assoc item (cached (m.reg_of s) cache.cells cache.len) h.rest));
        below = h.below;
        exact = λ i p. elim (Bool-cases (cache.len == i)) [
          | inl e ↦ rw e fits
          | inr e ↦ rw e (h.exact i (ground arith))
        ];
      }

  -- An operand that the opcode holds a few times at most
  abbrev pub Pushable : (ℕ → ℕ) → Operand → Type 0
  Pushable held operand =
      (r_op_min ≤ operand.reg) × (operand.reg ≤ r_op_max) × (held (operand.reg - r_op_min) ≤ 16)

  pushed-Inv :
      (flag_r : Bool) (held : ℕ → ℕ) (ctx : Ctx) (operand : Operand) (w r : List ℕ)
      → let item = item_bytes operand.is_short (m.reg_of (at m s0 ctx) operand.reg) in
        Inv m s0 held ctx w r
        → (cache_of flag_r ctx).len < cache_size
        → Pushable held operand
        → m.reg_of (at m s0 ctx) operand.reg < width operand.is_short
        → length (on_wst flag_r item w) ≤ 256
        → length (on_rst flag_r item r) ≤ 256
        → Inv m s0 held (pushed flag_r operand ctx) (on_wst flag_r item w) (on_rst flag_r item r)
  pushed-Inv true held ctx operand w r v room (lo, hi, few) fits hw hr = record {
    anchored = record { vm = v.anchored.vm; base = v.anchored.base };
    wst = v.wst;
    rst = added-Holds true (at m s0 ctx) ctx.rst_cache operand r fits v.rst;
    wst_fresh = v.wst_fresh;
    rst_fresh = added-Fresh ctx.rst_cache operand v.rst_fresh room lo hi;
    counted = λ x. ground (
      arith,
      v.counted x,
      v.counted (operand.reg - r_op_min),
      refs-added ctx.rst_cache operand x,
      refs-le ctx.wst_cache.cells ctx.wst_cache.len (operand.reg - r_op_min),
      refs-le ctx.rst_cache.cells ctx.rst_cache.len (operand.reg - r_op_min),
      v.wst_fresh.size,
      v.rst_fresh.size,
    );
    wst_bound = hw;
    rst_bound = hr;
  }
  pushed-Inv false held ctx operand w r v room (lo, hi, few) fits hw hr = record {
    anchored = record { vm = v.anchored.vm; base = v.anchored.base };
    wst = added-Holds false (at m s0 ctx) ctx.wst_cache operand w fits v.wst;
    rst = v.rst;
    wst_fresh = added-Fresh ctx.wst_cache operand v.wst_fresh room lo hi;
    rst_fresh = v.rst_fresh;
    counted = λ x. ground (
      arith,
      v.counted x,
      v.counted (operand.reg - r_op_min),
      refs-added ctx.wst_cache operand x,
      refs-le ctx.wst_cache.cells ctx.wst_cache.len (operand.reg - r_op_min),
      refs-le ctx.rst_cache.cells ctx.rst_cache.len (operand.reg - r_op_min),
      v.wst_fresh.size,
      v.rst_fresh.size,
    );
    wst_bound = hw;
    rst_bound = hr;
  }

  -- A push with room to spare
  pushed-Frame :
      (flag_r : Bool) (operand : Operand) (a b : Ctx)
      → Frame m s0 a b
      → Frame m s0 a (pushed flag_r operand b)
  pushed-Frame true operand a b f = Frame-caches m s0 a b b.wst_cache _ _ f
  pushed-Frame false operand a b f = Frame-caches m s0 a b _ b.rst_cache _ f

  -- Both stacks with an item on top of one of them
  pub record OnTop (flag_r : Bool) (held : ℕ → ℕ) (ctx : Ctx) (item w r : List ℕ) (ctx' : Ctx)
      : Type 0 where
    pub inv : Inv m s0 held ctx' (on_wst flag_r item w) (on_rst flag_r item r)
    pub frame : Frame m s0 ctx ctx'
    pub shape : (two : Bool) → length item ≡ length (item_bytes two 0) → Shaped flag_r two ctx ctx'

  fewer_than :
      (flag_r : Bool) (held : ℕ → ℕ) (ctx : Ctx) (w r : List ℕ)
      → Inv m s0 held ctx w r
      → (cache_of flag_r ctx).len ≤ cache_size
  fewer_than true held ctx w r v = v.rst_fresh.size
  fewer_than false held ctx w r v = v.wst_fresh.size

  -- Under the invariant, pushing an operand in an operand register, which the opcode holds at most
  -- sixteen times and which holds no more than the size of the operand, onto a stack with room for it fails no assertion; the item's bytes are the new
  -- top of its stack, in memory or in registers, and the other stack, the operand registers and
  -- the rest of the VM stay.
  pub push_cell-OnTop :
      (flag_r : Bool) (held : ℕ → ℕ) (ctx : Ctx) (operand : Operand) (w r : List ℕ)
      → let item = item_bytes operand.is_short (m.reg_of (at m s0 ctx) operand.reg) in
        Inv m s0 held ctx w r
        → Pushable held operand
        → m.reg_of (at m s0 ctx) operand.reg < width operand.is_short
        → length (on_wst flag_r item w) ≤ 256
        → length (on_rst flag_r item r) ≤ 256
        → Ensures (λ _. OnTop flag_r held ctx item w r) (push_cell flag_r operand ctx)
  push_cell-OnTop flag_r held ctx operand w r v p fits hw hr =
      elim (Bool-cases (leb cache_size (cache_of flag_r ctx).len)) [
        | inr room ↦
            let less : (cache_of flag_r ctx).len < cache_size = ground arith in
            rw (push_cell-run flag_r operand ctx less p.0 p.1) (record {
              inv = pushed-Inv flag_r held ctx operand w r v less p fits hw hr;
              frame = pushed-Frame flag_r operand ctx ctx (Frame-refl m s0 ctx);
              shape =
                  λ two e. pushed-Shaped flag_r two operand ctx (short_of operand.is_short two _ e);
            })
        | inl full ↦
            let ge : cache_size ≤ (cache_of flag_r ctx).len = ground arith in
            let (run, done) = spill-Spilled m s0 flag_r held ctx w r v (omega arith) in
            let ctx1 = spilled flag_r ctx in
            let size = fewer_than flag_r held ctx w r v in
            let less : (cache_of flag_r ctx1).len < cache_size = omega (arith, done.own) in
            let value = done.frame.regs operand.reg p.0 p.1 in
            rw (push_cell-full flag_r operand ctx ctx1 ge run less p.0 p.1) (record {
              inv = rw value at (
                  pushed-Inv flag_r held ctx1 operand w r done.inv less p (rw value fits)
                    (rw value hw) (rw value hr));
              frame = pushed-Frame flag_r operand ctx ctx1 done.frame;
              shape = λ two e.
                  Shaped-trans flag_r two ctx ctx1 _ (done.shape flag_r two)
                    (pushed-Shaped flag_r two operand ctx1 (short_of operand.is_short two _ e));
            })
      ]
