-- ===== src/Ctx.antt =====
-- src/jit.c: the state of one block's compilation (`buxn_jit_ctx_t`), and the monad of the
-- functions that change it. `none` is a failed BUXN_JIT_ASSERT.
use buxn_jit.Prelude.{ℕ, ◌+◌, ◌==◌, Bool, true, false, Option, none, some, List, ◌∷◌, bit_and, not}
use buxn_jit.Lir.{Field, Instr, s_wsp, s_rsp}
use buxn_jit.Jit.{Jit}

-- BUXN_JIT_CACHE_SIZE
abbrev pub cache_size : ℕ
cache_size = 4

-- The bits of `semantics`.
abbrev pub sem_const : ℕ
sem_const = 1

abbrev pub sem_boolean : ℕ
sem_boolean = 2

abbrev pub sem_imm_jmp : ℕ
sem_imm_jmp = 4

-- `semantics & bit`, as a test
abbrev pub has : ℕ → ℕ → Bool
has semantics bit = not (bit_and semantics bit == 0)

-- `buxn_jit_value_t`
pub record Value : Type 0 where
  pub semantics : ℕ
  pub const_value : ℕ

-- `buxn_jit_operand_t`
pub record Operand : Type 0 where
  pub semantics : ℕ
  pub is_short : Bool
  pub const_value : ℕ
  pub reg : ℕ

-- `buxn_jit_stack_cache_cell_t`
pub record Cell : Type 0 where
  pub value : Operand
  pub need_flush : Bool

-- `buxn_jit_stack_cache_t`. The array keeps what it held at the indices from `len` on.
pub record Cache : Type 0 where
  pub cells : ℕ → Cell
  pub len : ℕ

-- `buxn_jit_ctx_t`. `image` is the VM's memory while the block is compiled; `code` are the calls
-- made on the compiler, the last one first; `finalized` stands for `compiler == NULL`;
-- `mem_base` is none for 0; `shadow` holds the two stack pointers of `buxn_jit_next_opcode`, and is
-- none where `ewsp` and `ersp` point at the context's own. `next_id` numbers jumps and labels.
pub record Ctx : Type 0 where
  pub jit : Jit
  pub image : ℕ → ℕ
  pub compiler : ℕ
  pub code : List Instr
  pub finalized : Bool
  pub next_id : ℕ
  pub call_fallback : ℕ
  pub entry_pc : ℕ
  pub pc : ℕ
  pub current_opcode : ℕ
  pub mem_base : Option Field
  pub wst : ℕ → Value
  pub rst : ℕ → Value
  pub wsp : ℕ
  pub rsp : ℕ
  pub shadow : Option (ℕ × ℕ)
  pub wsp_reg : ℕ
  pub rsp_reg : ℕ
  pub reg_ref_counts : ℕ → ℕ
  pub wst_cache : Cache
  pub rst_cache : Cache

abbrev pub M : Type 0 → Type 0
M A = Ctx → Option (A × Ctx)

abbrev pub pure : {A : Type 0} → A → M A
pure a ctx = some (a, ctx)

infixl 5 ◌>>=◌ ◌>>◌
abbrev pub ◌>>=◌ : {A B : Type 0} → M A → (A → M B) → M B
◌>>=◌ m f ctx = elim (m ctx) [ none ↦ none | some (a, ctx') ↦ f a ctx' ]

abbrev pub ◌>>◌ : {A B : Type 0} → M A → M B → M B
m >> k = m >>= λ _. k

abbrev pub get : M Ctx
get ctx = some (ctx, ctx)

abbrev pub modify : (Ctx → Ctx) → M (Unit {0})
modify f ctx = some (tt, f ctx)

abbrev pub skip : M (Unit {0})
skip = pure tt

-- BUXN_JIT_ASSERT
abbrev pub assert : Bool → M (Unit {0})
assert true ctx = some (tt, ctx)
assert false ctx = none

abbrev pub when : Bool → M (Unit {0}) → M (Unit {0})
when true m = m
when false m = skip

-- One call on the compiler.
abbrev pub emit : Instr → M (Unit {0})
emit i = modify λ ctx. record ctx { code = i ∷ ctx.code }

abbrev pub fresh_id : M ℕ
fresh_id ctx = some (ctx.next_id, record ctx { next_id = ctx.next_id + 1 })

-- The two stack caches, by `flag_r`.
abbrev pub cache_of : Bool → Ctx → Cache
cache_of true ctx = ctx.rst_cache
cache_of false ctx = ctx.wst_cache

abbrev pub with_cache : Bool → Cache → Ctx → Ctx
with_cache true cache ctx = record ctx { rst_cache = cache }
with_cache false cache ctx = record ctx { wst_cache = cache }

-- `flag_r ? ctx->rsp_reg : ctx->wsp_reg`, and the saved register itself
abbrev pub stack_ptr_reg : Bool → Ctx → ℕ
stack_ptr_reg true ctx = ctx.rsp_reg
stack_ptr_reg false ctx = ctx.wsp_reg

abbrev pub saved_ptr_reg : Bool → ℕ
saved_ptr_reg true = s_rsp
saved_ptr_reg false = s_wsp

abbrev pub stack_field : Bool → Field
stack_field true = Field.rs
stack_field false = Field.ws
