-- ===== src/Jit.antt =====
-- src/jit.c: the state of a JIT that outlives one block's compilation (`buxn_jit_t`), its queues and
-- its block map. A block is known by its key, a compiler and a jump by a number.
pub mod Laws
pub mod Pending
pub mod Potential
use buxn_jit.Prelude.{ℕ, ◌+◌, Option, none, some, List, [], ◌∷◌}
use buxn_jit.Hamt.{Trie, leaf, search, put, prospector32}

-- `buxn_jit_block_t`, less its links. `fn` is none until code has been generated.
pub record Block : Type 0 where
  pub key : ℕ
  pub fn : Option ℕ
  pub head_addr : ℕ
  pub body_addr : ℕ
  pub executable_offset : ℕ

pub data LinkType : Type 0 where
  link_to_head link_to_body : LinkType

-- `buxn_jit_entry_t`. `jump` and `pc` share storage in the source; a queue only reads the one
-- that its entries were given.
pub record Entry : Type 0 where
  pub link_type : LinkType
  pub block : ℕ
  pub compiler : ℕ
  pub jump : ℕ
  pub pc : ℕ

-- A queue is a linked list, its head first. `next_compiler` numbers the compilers that sljit
-- hands out.
pub record Jit : Type 0 where
  pub root : Trie Block
  pub first : List ℕ
  pub num_blocks : ℕ
  pub num_bounces : ℕ
  pub code_size : ℕ
  pub compile_queue : List Entry
  pub link_queue : List Entry
  pub cleanup_queue : List Entry
  pub entry_pool : List Entry
  pub next_compiler : ℕ

-- `buxn_jit_init`: everything is zeroed.
abbrev pub init : Jit
init = record {
  root = leaf;
  first = [];
  num_blocks = 0;
  num_bounces = 0;
  code_size = 0;
  compile_queue = [];
  link_queue = [];
  cleanup_queue = [];
  entry_pool = [];
  next_compiler = 0;
}

abbrev pub enqueue : List Entry → Entry → List Entry
enqueue queue entry = entry ∷ queue

abbrev pub dequeue : List Entry → Option Entry × List Entry
dequeue [] = (none, [])
dequeue (entry ∷ queue) = (some entry, queue)

-- What the memory of a new entry holds does not matter: every user sets the fields that are read.
abbrev pub unset_entry : Entry
unset_entry = record { link_type = link_to_head; block = 0; compiler = 0; jump = 0; pc = 0 }

abbrev pub or_fresh : Option Entry → Entry
or_fresh none = unset_entry
or_fresh (some entry) = entry

-- `buxn_jit_alloc_entry`: an entry of the pool, or new memory.
unfoldable pub alloc_entry : Jit → Entry × Jit
alloc_entry jit =
    let (entry, pool) = dequeue jit.entry_pool in (or_fresh entry, record jit { entry_pool = pool })

abbrev pub new_block : ℕ → Block
new_block pc = record { key = pc; fn = none; head_addr = 0; body_addr = 0; executable_offset = 0 }

-- The branch of `buxn_jit_queue_block` for a new address.
unfoldable pub add_block : Jit → ℕ → Jit
unfolding alloc_entry
add_block jit pc =
    let compiler = jit.next_compiler in
    let jit1 : Jit = record jit {
      root = put jit.root (prospector32 pc) pc (new_block pc);
      first = pc ∷ jit.first;
      num_blocks = jit.num_blocks + 1;
      next_compiler = compiler + 1;
    } in
    let (compile_entry, jit2) = alloc_entry jit1 in
    let jit3 : Jit = record jit2 {
      compile_queue =
          enqueue jit2.compile_queue
            (record compile_entry { block = pc; compiler = compiler; pc = pc });
    } in
    let (cleanup_entry, jit4) = alloc_entry jit3 in
    record jit4 {
      cleanup_queue = enqueue jit4.cleanup_queue (record cleanup_entry { compiler = compiler });
    }

abbrev pub find_block : Jit → ℕ → Option Block
find_block jit pc = search jit.root (prospector32 pc) pc

unfoldable pub queue_block : Jit → ℕ → Jit
unfolding add_block
queue_block jit pc = elim (find_block jit pc) [ some block ↦ jit | none ↦ add_block jit pc ]

-- A request to link a jump to a block, as `buxn_jit_jump_abs` makes it. In the source the entry is
-- taken from the pool before the block is queued.
unfoldable pub request_link : Jit → LinkType → ℕ → ℕ → ℕ → Jit
unfolding alloc_entry queue_block
request_link jit type target compiler jump =
    let (entry, jit1) = alloc_entry jit in
    let jit2 = queue_block jit1 target in
    record jit2 {
      link_queue =
          enqueue jit2.link_queue
            (record entry { link_type = type; block = target; compiler = compiler; jump = jump });
    }
