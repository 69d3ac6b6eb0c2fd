-- ===== src/Compile/Queues.antt =====
-- src/jit.c, `buxn_jit`: the three queues are worked off, the last one is for the compilers. Also
-- `buxn_jit_execute` and `buxn_jit_cleanup`.
use buxn_jit.Prelude.{ℕ, zero, suc, ltb, Option, none, some, List, [], ◌∷◌, ◌++◌, if◌then◌else◌}
use buxn_jit.Jit.{
  Jit, Block, Entry, LinkType, link_to_head, link_to_body, find_block, queue_block, enqueue,
}
use buxn_jit.Compile.Block.{Env, compile}

pub data Outcome (A : Type 0) : Type 0 where
  done : A → Outcome A
  failed out_of_fuel : Outcome A

-- The loop over the compile queue, which compiling extends; `failed` is a failed assertion.
unfoldable pub compile_all : Env → ℕ → Jit → Outcome Jit
unfolding compile
compile_all env zero jit = out_of_fuel
compile_all env (suc fuel) jit = elim (jit.compile_queue) [
  | [] ↦ done jit
  | entry ∷ queue ↦ elim (compile env (record jit { compile_queue = queue }) entry) [
    | none ↦ failed
    | some jit' ↦ compile_all env fuel (record jit' { entry_pool = enqueue jit'.entry_pool entry })
  ]
]

-- One call of `sljit_set_jump_addr`: the jump, its new target and the offset
pub record Patch : Type 0 where
  pub compiler : ℕ
  pub jump : ℕ
  pub target : ℕ
  pub executable_offset : ℕ

-- `target`, for the block of the entry
abbrev pub target_addr : LinkType → Block → ℕ
target_addr link_to_head block = block.head_addr
target_addr link_to_body block = block.body_addr

abbrev pub patch : Entry → Block → Patch
patch entry block = record {
  compiler = entry.compiler;
  jump = entry.jump;
  target = target_addr entry.link_type block;
  executable_offset = block.executable_offset;
}

-- The body of the second loop. The pointer to the block is never NULL, so that the case of a block
-- that is not in the map is of no interest.
abbrev pub patch_of : Entry → Option Block → List Patch
patch_of entry none = []
patch_of entry (some block) =
    if ltb 0 (target_addr entry.link_type block) then patch entry block ∷ [] else []

-- The loop over the link queue, with the calls that it makes
unfoldable pub link_from : Jit → List Entry → List Patch × Jit
link_from jit [] = ([], record jit { link_queue = [] })
link_from jit (entry ∷ queue) =
    let (patches, jit') =
      link_from (record jit { entry_pool = enqueue jit.entry_pool entry }) queue in
    (patch_of entry (find_block jit entry.block) ++ patches, jit')

abbrev pub link_all : Jit → List Patch × Jit
link_all jit = link_from jit jit.link_queue

-- The loop over the cleanup queue, with the compilers that it frees
unfoldable pub cleanup_from : Jit → List Entry → List ℕ × Jit
cleanup_from jit [] = ([], record jit { cleanup_queue = [] })
cleanup_from jit (entry ∷ queue) =
    let (freed, jit') =
      cleanup_from (record jit { entry_pool = enqueue jit.entry_pool entry }) queue in
    (entry.compiler ∷ freed, jit')

abbrev pub cleanup_all : Jit → List ℕ × Jit
cleanup_all jit = cleanup_from jit jit.cleanup_queue

-- What `buxn_jit` did besides changing the JIT
pub record Worked : Type 0 where
  pub jit : Jit
  pub patches : List Patch
  pub freed : List ℕ

-- The second and the third loop
unfoldable pub finish : Jit → Worked
unfolding link_from cleanup_from
finish jit =
    let (patches, linked) = link_all jit in
    let (freed, cleaned) = cleanup_all linked in
    record { jit = cleaned; patches = patches; freed = freed }

abbrev pub has_code : Option Block → Option ℕ
has_code none = none
has_code (some block) = block.fn

-- `buxn_jit`
unfoldable pub translate : Env → ℕ → Jit → ℕ → Outcome Worked
unfolding queue_block compile_all finish
translate env fuel jit pc =
    let jit1 = queue_block jit pc in
    elim (has_code (find_block jit1 pc)) [
      | some fn ↦ done (record { jit = jit1; patches = []; freed = [] })
      | none ↦ elim (compile_all env fuel jit1) [
        | failed ↦ failed
        | out_of_fuel ↦ out_of_fuel
        | done jit2 ↦ done (finish jit2)
      ]
    ]
