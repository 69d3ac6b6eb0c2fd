-- ===== src/Hooks/Mappings.antt =====
-- src/addr_mapping.h, src/perf.c and src/gdb/hook.c: the addresses of a block's opcodes, collected in
-- chunks of sixteen that go back to a pool.
use buxn_jit.Prelude.{
  ℕ, ◌+◌, ◌-◌, ◌≤◌, ◌≡◌, refl, sym, ap, Bool, true, Bool-cases, inl, inr, List, [], ◌∷◌, ◌++◌, ◌==◌,
  ◌||◌, bit_and, length, length-append, arith, if◌then◌else◌,
}
use mathlib.Core.List.{append_assoc}

abbrev pub chunk_size : ℕ
chunk_size = 16

-- `buxn_jit_addr_mapping_t`; a mark is a label, by its number
pub record Mapping : Type 0 where
  pub mark : ℕ
  pub addr : ℕ

-- `addr_mappings` and `addr_mapping_chunk_pool`: the chunks in use, the last one first, their number
-- of mappings, and how many chunks the pool holds. A chunk is its mappings in order; what the
-- memory of a pooled chunk holds is never read.
pub record Log : Type 0 where
  pub chunks : List (List Mapping)
  pub len : ℕ
  pub pool : ℕ

abbrev pub is_full : List (List Mapping) → Bool
is_full [] = true
is_full (c ∷ cs) = length c == chunk_size

abbrev pub add_last : List (List Mapping) → Mapping → List (List Mapping)
add_last [] mapping = []
add_last (c ∷ cs) mapping = (c ++ mapping ∷ []) ∷ cs

-- A new chunk is taken where there is none, or the last one is full.
abbrev pub next_chunks : List (List Mapping) → Mapping → List (List Mapping)
next_chunks cs mapping = add_last (if is_full cs then [] ∷ cs else cs) mapping

-- `buxn_jit_perf_jit_opcode`, and the rest of `buxn_jit_gdb_jit_opcode`
unfoldable pub record_mapping : Log → Mapping → Log
record_mapping log mapping = record {
  chunks = next_chunks log.chunks mapping;
  len = log.len + 1;
  pool = if is_full log.chunks then log.pool - 1 else log.pool;
}

-- The mappings in the order of their recording, as the loops of the `end_block` hooks visit them
abbrev pub mappings_of : List (List Mapping) → List Mapping
mappings_of [] = []
mappings_of (c ∷ cs) = mappings_of cs ++ c

-- The filter of `buxn_jit_gdb_jit_opcode`: the entry, and the opcodes that call
unfoldable pub is_recorded : ℕ → ℕ → ℕ → Bool
is_recorded entry_addr pc opcode =
    let base_opcode = bit_and opcode 0x1f in
    pc == entry_addr
    || opcode == 0x60
    || base_opcode == 0x0e
    || base_opcode == 0x16
    || base_opcode == 0x17

abbrev pub AllFull : List (List Mapping) → Type 0
AllFull [] = Unit {0}
AllFull (c ∷ cs) = (length c ≡ chunk_size) × AllFull cs

-- No chunk is longer than its array, none but the last has room, and `len` counts the mappings.
abbrev pub Fits : List (List Mapping) → Type 0
Fits [] = Unit {0}
Fits (c ∷ cs) = (length c ≤ chunk_size) × AllFull cs

pub record IsValid (log : Log) : Type 0 where
  pub fits : Fits log.chunks
  pub counted : log.len ≡ length (mappings_of log.chunks)

next_chunks-order :
    (cs : List (List Mapping)) (mapping : Mapping)
    → mappings_of (next_chunks cs mapping) ≡ mappings_of cs ++ mapping ∷ []
next_chunks-order [] mapping = refl
next_chunks-order (c ∷ cs) mapping = elim (Bool-cases (length c == chunk_size)) [
  | inl full ↦ rw full
  | inr room ↦ rw room (sym (append_assoc (mappings_of cs) c (mapping ∷ [])))
]

next_chunks-Fits :
    (cs : List (List Mapping)) (mapping : Mapping) → Fits cs → Fits (next_chunks cs mapping)
next_chunks-Fits [] mapping f = omega arith
next_chunks-Fits (c ∷ cs) mapping (fits, full) = elim (Bool-cases (length c == chunk_size)) [
  | inl e ↦ rw e (omega arith, (ground arith, full))
  | inr e ↦ rw e (ground (arith, length-append c (mapping ∷ [])), full)
]

-- In a valid log, recording appends the mapping to those recorded before, in order; all chunks but
-- the last stay full, none overflows, and the count stays right.
pub record_mapping_lem :
    (log : Log) (mapping : Mapping)
    → IsValid log
    → (mappings_of (record_mapping log mapping).chunks ≡ mappings_of log.chunks ++ mapping ∷ [])
      × IsValid (record_mapping log mapping)
unfolding record_mapping
record_mapping_lem log mapping v =
    let order = next_chunks-order log.chunks mapping in
    (
      order,
      record {
        fits = next_chunks-Fits log.chunks mapping v.fits;
        counted = omega (
          arith,
          v.counted,
          ap length order,
          length-append (mappings_of log.chunks) (mapping ∷ []),
        );
      },
    )
