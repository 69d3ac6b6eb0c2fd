-- ===== src/Refine/Fetch.antt =====
-- `buxn_jit_pop_from_mem` on a register that is free: an item comes off a stack whose cache is empty.
use buxn_jit.Prelude.{
  ℕ, zero, suc, ◌+◌, ◌-◌, ◌%◌, ◌<◌, ◌≤◌, ◌≡◌, ◌≢◌, refl, ◌∙◌, Bool, true, false, some, List, ◌∷◌,
  ◌++◌, arith, length, ◌==◌, Bool-cases, inl, inr,
}
use buxn_jit.Lir.{
  Field, Instr, reg, imm, mem, op1, op2, mov_u8, sub, shl, or, r_mem_offset, r_tmp, s_vm, r_op_min,
  r_op_max,
}
use buxn_jit.Ctx.{Cell, Cache, Ctx, cache_of, stack_field, saved_ptr_reg, stack_ptr_reg}
use buxn_jit.Regs.{find_free_reg, retain_reg}
use buxn_jit.Cache.Spill.{set_mem_base, make_room, alloc_reg}
use buxn_jit.Cache.Pop.{pop_from_mem, pop_byte, pop}
use buxn_jit.Micro.Stack.{width, size}
use buxn_jit.Machine.{Machine, exec}
use buxn_jit.Refine.Ensures.{>>=-run}
use buxn_jit.Refine.Push.{item_bytes, saved_ptr-gt}
use buxn_jit.Refine.Item.{at, Anchored, Pointed, point_to, set_mem_base-point_to, point_to-Pointed}
use buxn_jit.Refine.Below.{Below, Below-congr}
use buxn_jit.Refine.Cached.{cached, cached-congr, refs}
use buxn_jit.Refine.Holds.{Holds, saved_ptr-gt_op}
use buxn_jit.Refine.Alloc.{retain_reg-run, find_free_reg-some}
use buxn_jit.Refine.Room.{counted_up}
use buxn_jit.Refine.Reading.{Loaded, byte-Loaded, short-Loaded}

-- A register without references is in no cell.
pub refs-zero :
    (cells : ℕ → Cell) (n x i : ℕ) → refs cells n x ≡ 0 → i < n → (cells i).value.reg - r_op_min ≢ x
refs-zero cells zero x i e h = absurd (omega arith)
refs-zero cells (suc n) x i e h = elim (Bool-cases (i == n)) [
  | inl here ↦ ground arith
  | inr below ↦ refs-zero cells n x i (ground arith) (ground arith)
]

pub vm_apart : (flag_r : Bool) → s_vm ≢ saved_ptr_reg flag_r
vm_apart true = omega arith
vm_apart false = omega arith

make_room-free :
    (n : ℕ) (ctx : Ctx) (r : ℕ) → find_free_reg ctx ≡ some r → make_room n ctx ≡ some (some r, ctx)
unfolding make_room
make_room-free zero ctx r e = rw e
make_room-free (suc n) ctx r e = rw (e, make_room)

pub alloc_reg-free :
    (ctx : Ctx) (r : ℕ)
    → find_free_reg ctx ≡ some r
    → alloc_reg ctx ≡ some (r, record ctx { reg_ref_counts = counted_up ctx.reg_ref_counts r })
unfolding alloc_reg
alloc_reg-free ctx r e =
    let (lo, hi, _) = find_free_reg-some ctx r e in
    let n = ctx.wst_cache.len + ctx.rst_cache.len in
    >>=-run (make_room n) _ ctx (make_room-free n ctx r e)
    ∙ >>=-run (retain_reg r) _ ctx (retain_reg-run r ctx lo hi)

abbrev read_code : ℕ → ℕ → List Instr → List Instr
read_code sp dst code =
    op1 mov_u8 (reg dst) mem
    ∷ op1 mov_u8 (reg r_mem_offset) (reg sp)
    ∷ op2 sub sp (reg sp) (imm 1)
    ∷ code

abbrev fetch_code : Bool → ℕ → ℕ → List Instr → List Instr
fetch_code false sp dst code = read_code sp dst code
fetch_code true sp dst code =
    op2 or dst (reg dst) (reg r_tmp)
    ∷ op2 shl r_tmp (reg r_tmp) (imm 8)
    ∷ read_code sp r_tmp (read_code sp dst code)

-- The context after a pop from memory
abbrev pub fetched : Bool → Bool → ℕ → Ctx → Ctx
fetched flag_r two r ctx =
    let ctx' = point_to (stack_field flag_r) ctx in
    record ctx' {
      code = fetch_code two (saved_ptr_reg flag_r) r ctx'.code;
      reg_ref_counts = counted_up ctx.reg_ref_counts r;
    }

find-pointed : (f : Field) (ctx : Ctx) → find_free_reg (point_to f ctx) ≡ find_free_reg ctx
unfolding find_free_reg
find-pointed f ctx = refl

pub pop_from_mem-run :
    (flag_r two : Bool) (ctx : Ctx) (r : ℕ)
    → stack_ptr_reg flag_r ctx ≡ saved_ptr_reg flag_r
    → find_free_reg ctx ≡ some r
    → pop_from_mem two flag_r ctx ≡ some (r, fetched flag_r two r ctx)
unfolding pop_from_mem
pop_from_mem-run true true ctx r p e =
    let ctx1 = point_to (stack_field true) ctx in
    >>=-run (set_mem_base (stack_field true)) _ ctx (set_mem_base-point_to (stack_field true) ctx)
    ∙ >>=-run alloc_reg _ ctx1 (alloc_reg-free ctx1 r (find-pointed (stack_field true) ctx ∙ e))
    ∙ rw p
pop_from_mem-run true false ctx r p e =
    let ctx1 = point_to (stack_field true) ctx in
    >>=-run (set_mem_base (stack_field true)) _ ctx (set_mem_base-point_to (stack_field true) ctx)
    ∙ >>=-run alloc_reg _ ctx1 (alloc_reg-free ctx1 r (find-pointed (stack_field true) ctx ∙ e))
    ∙ rw p
pop_from_mem-run false true ctx r p e =
    let ctx1 = point_to (stack_field false) ctx in
    >>=-run (set_mem_base (stack_field false)) _ ctx (set_mem_base-point_to (stack_field false) ctx)
    ∙ >>=-run alloc_reg _ ctx1 (alloc_reg-free ctx1 r (find-pointed (stack_field false) ctx ∙ e))
    ∙ rw p
pop_from_mem-run false false ctx r p e =
    let ctx1 = point_to (stack_field false) ctx in
    >>=-run (set_mem_base (stack_field false)) _ ctx (set_mem_base-point_to (stack_field false) ctx)
    ∙ >>=-run alloc_reg _ ctx1 (alloc_reg-free ctx1 r (find-pointed (stack_field false) ctx ∙ e))
    ∙ rw p

pub pop-empty :
    (flag_r two : Bool) (ctx : Ctx)
    → (cache_of flag_r ctx).len ≡ 0
    → pop flag_r two ctx ≡ pop_from_mem two flag_r ctx
unfolding pop pop_byte
pop-empty flag_r true ctx e = rw e
pop-empty flag_r false ctx e = rw e

module _ (m : Machine) where
  open m use {State, reg_of, cell}

  -- A stack whose registers, pointer and bytes are as before
  pub Holds-kept :
      (side : Bool) (s s' : State) (cache : Cache) (l : List ℕ)
      → ((i : ℕ)
          → i < cache.len
          → reg_of s' (cache.cells i).value.reg ≡ reg_of s (cache.cells i).value.reg)
      → reg_of s' (saved_ptr_reg side) ≡ reg_of s (saved_ptr_reg side)
      → ((j : ℕ) → cell s' (stack_field side) j ≡ cell s (stack_field side) j)
      → Holds m side s cache l
      → Holds m side s' cache l
  Holds-kept side s s' cache l regs pointer cells h =
      let kept : cached (reg_of s') cache.cells cache.len
          ≡ cached (reg_of s) cache.cells cache.len =
        cached-congr (reg_of s) (reg_of s') cache.cells cache.cells cache.len (λ i p. refl) regs in
      record {
        rest = h.rest;
        split = rw kept h.split;
        below = rw pointer (
            Below-congr (cell s (stack_field side)) (cell s' (stack_field side)) _ h.rest cells
              h.below);
        exact = λ i p. rw (regs i p) (h.exact i p);
      }

module _ (m : Machine) (s0 : m.State) where
  open m use {State, reg_of, cell}

  Pointed-Loaded :
      (flag_r two : Bool) (ctx : Ctx) (new : ℕ)
      → Pointed m s0 (stack_field flag_r) ctx
      → r_tmp < new
      → new ≢ saved_ptr_reg flag_r
      → Loaded m flag_r two new
          (at m s0 (point_to (stack_field flag_r) ctx))
          (at m s0 (fetched flag_r two new ctx))
  unfolding exec
  Pointed-Loaded flag_r true ctx new p lo ne =
      short-Loaded m flag_r (at m s0 (point_to (stack_field flag_r) ctx)) new p.points lo ne
  Pointed-Loaded flag_r false ctx new p lo ne =
      byte-Loaded m flag_r (at m s0 (point_to (stack_field flag_r) ctx)) new p.points lo ne

  -- The machine after a pop from memory, against the machine before it
  pub record Unloaded (flag_r two : Bool) (ctx : Ctx) (new : ℕ) (l : List ℕ) : Type 0 where
    pub rest : List ℕ
    pub fits : reg_of (at m s0 (fetched flag_r two new ctx)) new < width two
    pub item : l ≡ item_bytes two (reg_of (at m s0 (fetched flag_r two new ctx)) new) ++ rest
    pub below :
        Below
          (cell (at m s0 (fetched flag_r two new ctx)) (stack_field flag_r))
          (reg_of (at m s0 (fetched flag_r two new ctx)) (saved_ptr_reg flag_r) % 256)
          rest
    pub regs :
        (x : ℕ)
        → r_tmp < x
        → x ≢ saved_ptr_reg flag_r
        → x ≢ new
        → reg_of (at m s0 (fetched flag_r two new ctx)) x ≡ reg_of (at m s0 ctx) x
    pub cells :
        (g : Field) (j : ℕ)
        → cell (at m s0 (fetched flag_r two new ctx)) g j ≡ cell (at m s0 ctx) g j
    pub anchored : Anchored m s0 (fetched flag_r two new ctx)

  pub fetched-Unloaded :
      (flag_r two : Bool) (ctx : Ctx) (new : ℕ) (l : List ℕ)
      → Anchored m s0 ctx
      → r_op_min ≤ new
      → new ≤ r_op_max
      → size two ≤ length l
      → Below
          (cell (at m s0 ctx) (stack_field flag_r))
          (reg_of (at m s0 ctx) (saved_ptr_reg flag_r) % 256)
          l
      → Unloaded flag_r two ctx new l
  fetched-Unloaded flag_r two ctx new l a lo hi h below =
      let f = stack_field flag_r in
      let sp = saved_ptr_reg flag_r in
      let gt = saved_ptr-gt flag_r in
      let far = saved_ptr-gt_op flag_r in
      let s1 = at m s0 (point_to f ctx) in
      let s2 = at m s0 (fetched flag_r two new ctx) in
      let p = point_to-Pointed m s0 f ctx a in
      let k = Pointed-Loaded flag_r two ctx new p (omega arith) (omega arith) in
      let pointer : reg_of s1 sp ≡ reg_of (at m s0 ctx) sp = p.regs sp (omega arith) in
      let below1 : Below (cell s1 f) (reg_of s1 sp % 256) l =
        rw pointer (Below-congr (cell (at m s0 ctx) f) (cell s1 f) _ l (p.cells f) below) in
      let (rest, item, below2) = k.taken l h below1 in
      record {
        rest = rest;
        fits = k.fits;
        item = item;
        below = Below-congr (cell s1 f) (cell s2 f) _ rest (k.cells f) below2;
        regs = λ x hx hp ne. k.regs x hx hp ne ∙ p.regs x (omega arith);
        cells = λ g j. k.cells g j ∙ p.cells g j;
        anchored = record {
          vm =
              k.regs s_vm (omega arith) (vm_apart flag_r) (omega arith)
              ∙ p.regs s_vm (omega arith)
              ∙ a.vm;
          base = k.base ∙ p.points;
        };
      }
