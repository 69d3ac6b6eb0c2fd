-- ===== src/Tests.antt =====
-- The theorems at concrete states: a machine with three bytes on the working stack, a short in a
-- register on top of them, and small tables for the tools.
mod Compiling
mod Opcodes
mod Tools
use buxn_jit.Prelude.{
  ℕ, ◌+◌, ◌%◌, ◌^◌, ◌<◌, ◌≤◌, ◌++◌, ◌≡◌, refl, Bool, true, false, none, some, Option, List, [], ◌∷◌,
  arith, if◌then◌else◌, ◌==◌,
}
use buxn_jit.Lir.{s_wsp, s_rsp, add, sub, mul, shl, lshr, and, mov_s8}
use buxn_jit.Jit.{init, new_block, find_block, queue_block}
use buxn_jit.Jit.Laws.{find_block-queue_self, find_block-queue_ne}
use buxn_jit.Hamt.{Trie, leaf, search, put, prospector32}
use buxn_jit.Hamt.Laws.{search-put_self, search-put_ne}
use buxn_jit.Regs.{op_flag_2, op_flag_k, op_flag_r}
use buxn_jit.Regs.Flags.{op_flags_lem}
use buxn_jit.Jump.{relative}
use buxn_jit.Opcodes.Fold.{fold_sft-binary, relative-binary}
use buxn_jit.Hooks.LabelMap.{Label, pc_to_label, IsClosest, pc_to_label_lem}
use buxn_jit.Hooks.Symbols.{
  Symbol, Sorted, IsAnswer, find_symbol, find_symbol_lem, find_symbol-hint,
}
use buxn_jit.Hooks.Mappings.{Mapping, Log, IsValid, mappings_of, record_mapping, record_mapping_lem}
use buxn_jit.Ctx.{Operand, Cache, Ctx, Value}
use buxn_jit.Cache.Spill.{spill, alloc_reg, push_cell, do_push}
use buxn_jit.Cache.Sweep.{clear_stack_caches}
use buxn_jit.Machine.{exec, unary, binary}
use buxn_jit.Machine.Concrete.{State, concrete}
use buxn_jit.Refine.Ensures.{Ensures}
use buxn_jit.Refine.Item.{at, stored}
use buxn_jit.Refine.Written.{Written, do_push-Written}
use buxn_jit.Refine.Spill.{spilled}
use buxn_jit.Refine.Inv.{Inv, Frame, Spilled, spill-Spilled}
use buxn_jit.Refine.Clear.{InMemory, clear_stack_caches_lem}
use buxn_jit.Refine.Alloc.{Allocated, alloc_reg-Allocated}
use buxn_jit.Refine.Cell.{OnTop, push_cell-OnTop}
use buxn_jit.Opcodes.Control.{begin_opcode}
use buxn_jit.Refine.Start.{Started, begin_opcode-Started}

abbrev pub s0 : State
s0 = record {
  regs = λ x.
      if x == 3
      then 0x1234
      else if x == 4
      then 0x56
      else if x == 5
      then 0x34
      else if x == s_wsp
      then 3
      else 0;
  cells = λ f i. i + 7;
  flags = λ c. false;
}

abbrev item : ℕ → Bool → Operand
item r is_short = record { semantics = 0; is_short = is_short; const_value = 0; reg = r }

abbrev one_cell : Cache
one_cell = record { cells = λ i. record { value = item 3 true; need_flush = true }; len = 1 }

abbrev no_cell : Cache
no_cell = record { cells = λ i. record { value = item 3 true; need_flush = true }; len = 0 }

abbrev unknown : ℕ → Value
unknown i = record { semantics = 0; const_value = 0 }

-- The compilation of a block at 0x100, a short of the working stack in the first register
abbrev pub ctx0 : Ctx
ctx0 = record {
  jit = init;
  image = λ i. 0;
  compiler = 0;
  code = [];
  finalized = false;
  next_id = 0;
  call_fallback = 0;
  entry_pc = 0x100;
  pc = 0x100;
  current_opcode = 0x06;
  mem_base = none;
  wst = unknown;
  rst = unknown;
  wsp = 0;
  rsp = 0;
  shadow = none;
  wsp_reg = s_wsp;
  rsp_reg = s_rsp;
  reg_ref_counts = λ x. if x == 0 then 1 else 0;
  wst_cache = one_cell;
  rst_cache = no_cell;
}

abbrev pub none_held : ℕ → ℕ
none_held x = 0

abbrev pub stack : List ℕ
stack = 0x34 ∷ 0x12 ∷ 9 ∷ 8 ∷ 7 ∷ []

pub ctx0-Inv : Inv concrete s0 none_held ctx0 stack []
unfolding exec
ctx0-Inv = record {
  anchored = record { vm = refl; base = tt };
  wst = record {
    rest = 9 ∷ 8 ∷ 7 ∷ [];
    split = refl;
    below = (refl, (refl, (refl, tt)));
    exact = λ i h. ground arith;
  };
  rst = record { rest = []; split = refl; below = tt; exact = λ i h. absurd (omega arith) };
  wst_fresh = record {
    size = omega arith;
    lo = λ i h. omega arith;
    hi = λ i h. omega arith;
    dirty = λ i h. refl;
  };
  rst_fresh = record {
    size = omega arith;
    lo = λ i h. omega arith;
    hi = λ i h. omega arith;
    dirty = λ i h. refl;
  };
  counted = λ x. ground arith;
  wst_bound = omega arith;
  rst_bound = omega arith;
}

do_push-Written_example :
    (do_push (item 3 true) false ctx0 ≡ some (tt, stored false (item 3 true) ctx0))
    × Written concrete s0 false (item 3 true) ctx0
do_push-Written_example =
    do_push-Written concrete s0 false (item 3 true) ctx0 (ctx0-Inv.anchored) (omega arith)
      (omega arith)

spill-Spilled_example :
    (spill false ctx0 ≡ some (true, spilled false ctx0))
    × Spilled concrete s0 false none_held ctx0 stack [] (spilled false ctx0)
spill-Spilled_example =
    spill-Spilled concrete s0 false none_held ctx0 stack [] ctx0-Inv (omega arith)

clear_stack_caches_example :
    Ensures
      (λ _ ctx'. InMemory concrete s0 (at concrete s0 ctx') stack [] × Frame concrete s0 ctx0 ctx')
      (clear_stack_caches ctx0)
clear_stack_caches_example = clear_stack_caches_lem concrete s0 none_held ctx0 stack [] ctx0-Inv

alloc_reg-Allocated_example :
    Ensures (Allocated concrete s0 none_held ctx0 stack []) (alloc_reg ctx0)
alloc_reg-Allocated_example =
    alloc_reg-Allocated concrete s0 none_held ctx0 stack [] 1 (omega arith) refl ctx0-Inv

push_cell-OnTop_example :
    Ensures
      (λ _. OnTop concrete s0 true none_held ctx0 (0x56 ∷ []) stack [])
      (push_cell true (item 4 false) ctx0)
unfolding exec
push_cell-OnTop_example =
    push_cell-OnTop concrete s0 true none_held ctx0 (item 4 false) stack [] ctx0-Inv
      (omega arith, omega arith, omega arith) (omega arith) (omega arith) (omega arith)

-- A short of the working stack in a register, and an opcode
abbrev pub with_opcode : ℕ → Ctx
with_opcode opcode = record ctx0 { current_opcode = opcode }

pub with_opcode-Inv : (opcode : ℕ) → Inv concrete s0 none_held (with_opcode opcode) stack []
with_opcode-Inv opcode = record {
  anchored = record { vm = ctx0-Inv.anchored.vm; base = tt };
  wst = ctx0-Inv.wst;
  rst = ctx0-Inv.rst;
  wst_fresh = ctx0-Inv.wst_fresh;
  rst_fresh = ctx0-Inv.rst_fresh;
  counted = ctx0-Inv.counted;
  wst_bound = ctx0-Inv.wst_bound;
  rst_bound = ctx0-Inv.rst_bound;
}

begin_opcode-Started_example : Ensures (λ _. Started concrete s0 ctx0 stack []) (begin_opcode ctx0)
unfolding op_flag_k
begin_opcode-Started_example =
    begin_opcode-Started concrete s0 none_held ctx0 stack [] ctx0-Inv refl

find_block-queue_self_example :
    find_block (queue_block (queue_block init 0x100) 0x200) 0x200 ≡ some (new_block 0x200)
unfolding search queue_block put prospector32
find_block-queue_self_example = find_block-queue_self (queue_block init 0x100) 0x200

find_block-queue_ne_example :
    find_block (queue_block (queue_block init 0x100) 0x200) 0x100
    ≡ find_block (queue_block init 0x100) 0x100
find_block-queue_ne_example = find_block-queue_ne (queue_block init 0x100) 0x200 0x100 (omega arith)

abbrev small_trie : Trie ℕ
small_trie = put (put leaf 6 10 1) 2 11 2

search-put_self_example : search (put small_trie 2 12 3) 2 12 ≡ some 3
search-put_self_example = search-put_self small_trie 2 12 3

search-put_ne_example : search (put small_trie 2 12 3) 2 11 ≡ search small_trie 2 11
search-put_ne_example = search-put_ne small_trie 2 12 2 11 3 (omega arith)

op_flags_example : (op_flag_2 0xa0 ≡ true) × (op_flag_r 0xa0 ≡ false) × (op_flag_k 0xa0 ≡ false)
op_flags_example = op_flags_lem 0xa0 (omega arith)

fold_sft-binary_example :
    binary and (binary shl (binary lshr 0x1234 (binary and 0x14 0x0f)) (binary lshr 0x14 4)) 0xffff
    ≡ 0x0246
fold_sft-binary_example = fold_sft-binary true 0x1234 0x14 (omega arith)

relative-binary_example :
    (relative 0x102 0xfe < 2 ^ 16)
    × (binary add (unary mov_s8 0xfe) 0x102 % 2 ^ 16 ≡ relative 0x102 0xfe)
relative-binary_example = relative-binary 0x102 0xfe (omega arith)

abbrev labels : List Label
labels =
    record { addr = 0x100; name = 0x61 ∷ [] }
    ∷ record { addr = 0x110; name = 0x40 ∷ [] }
    ∷ record { addr = 0x120; name = 0x62 ∷ [] }
    ∷ []

pc_to_label_example : IsClosest 0x118 labels (pc_to_label labels 0x118)
pc_to_label_example = pc_to_label_lem labels 0x118

abbrev symbols : List Symbol
symbols =
    record { is_opcode = true; addr_min = 0x100; addr_max = 0x101 }
    ∷ record { is_opcode = false; addr_min = 0; addr_max = 0 }
    ∷ record { is_opcode = true; addr_min = 0x110; addr_max = 0x110 }
    ∷ []

symbols-Sorted : Sorted symbols
symbols-Sorted =
    (λ e. (λ h. ground arith, (λ h. omega arith, tt)), (λ e. ground arith, (λ e. tt, tt)))

find_symbol_example :
    (r : Option Symbol × ℕ) × (find_symbol symbols 0x101 2 ≡ some r) × IsAnswer 0x101 symbols r.0
find_symbol_example = find_symbol_lem symbols 0x101 2 symbols-Sorted (omega arith)

find_symbol-hint_example :
    (r : Option Symbol × ℕ) × (find_symbol symbols 0x101 2 ≡ some r) × (r.1 ≤ 3)
find_symbol-hint_example = find_symbol-hint symbols 0x101 2 (omega arith)

abbrev mapping : ℕ → Mapping
mapping n = record { mark = n; addr = 0x100 + n }

abbrev log : Log
log = record { chunks = (mapping 0 ∷ mapping 1 ∷ []) ∷ []; len = 2; pool = 1 }

record_mapping_example :
    (mappings_of (record_mapping log (mapping 2)).chunks ≡ mappings_of log.chunks ++ mapping 2 ∷ [])
    × IsValid (record_mapping log (mapping 2))
record_mapping_example =
    record_mapping_lem log (mapping 2) (record { fits = (omega arith, tt); counted = refl })
