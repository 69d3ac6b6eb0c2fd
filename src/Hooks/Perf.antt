-- ===== src/Hooks/Perf.antt =====
-- src/perf.c: the records that the end of a block writes for perf. A record starts with a header that
-- tells its size; `none` is where the code reads through NULL or beyond an array.
pub mod Sizes
use buxn_jit.Prelude.{
  ℕ, zero, suc, ◌+◌, ◌-◌, ◌*◌, ◌/◌, ◌%◌, ◌^◌, ◌≤◌, ◌<◌, ◌≡◌, ◌≢◌, ◌↔◌, refl, sym, ◌∙◌, ap, ◌==◌,
  ltb, Bool, true, false, Bool-cases, inl, inr, Option, none, some, Option-cases, List, [], ◌∷◌,
  ◌++◌, length, length-append, arith, if◌then◌else◌,
}
use buxn_jit.Hooks.LabelMap.{Label, pc_to_label}
use buxn_jit.Hooks.Mappings.{Mapping, Log, mappings_of}
use buxn_jit.Hooks.Symbols.{Symbol, find_symbol}

-- `bdbg` file range of a symbol: the file name by its bytes, and the start of the range
pub record Region : Type 0 where
  pub filename : List ℕ
  pub line : ℕ
  pub col : ℕ

-- One call of `fwrite` or `fprintf`: the header of a record with its identifier and size, the fixed
-- parts, a text, and the bytes of a block's code
pub data Write : Type 0 where
  rec_hdr : ℕ → ℕ → Write
  debug_info : ℕ → ℕ → Write
  debug_entry : ℕ → ℕ → ℕ → Write
  code_load : ℕ → ℕ → ℕ → Write
  text : List ℕ → Write
  code_bytes : ℕ → ℕ → Write
  map_line : ℕ → ℕ → List ℕ → Write

-- The `sizeof` of the structs; a text is written with its 0.
abbrev pub sizeof_hdr : ℕ
sizeof_hdr = 16

abbrev pub sizeof_info : ℕ
sizeof_info = 16

abbrev pub sizeof_entry : ℕ
sizeof_entry = 16

abbrev pub sizeof_load : ℕ
sizeof_load = 40

-- What a write adds to the dump file
unfoldable pub write_size : Write → ℕ
write_size (rec_hdr id total_size) = sizeof_hdr
write_size (debug_info code_addr nr_entry) = sizeof_info
write_size (debug_entry code_addr line discrim) = sizeof_entry
write_size (code_load code_addr code_size code_index) = sizeof_load
write_size (text bytes) = length bytes + 1
write_size (code_bytes code_start code_size) = code_size
write_size (map_line code_start code_size name) = 0

-- The table of symbols: the list that is searched, and the region of each number
pub record Table : Type 0 where
  pub symbols : List Symbol
  pub region : ℕ → Region

-- `buxn_dbg_find_symbol`, and the new hint; `none` where nothing is found, which the callers read
-- through, or where the search reads beyond the table
abbrev pub locate : Table → ℕ → ℕ → Option Region × ℕ
locate table addr hint = elim (find_symbol table.symbols addr hint) [
  | none ↦ (none, hint)
  | some (found, index) ↦ (elim found [ none ↦ none | some s ↦ some (table.region index) ], index)
]

-- The loop that adds up the size of the debug information
unfoldable pub add_sizes : Table → List Mapping → ℕ → ℕ → Option ℕ
add_sizes table [] hint total = some total
add_sizes table (m ∷ ms) hint total =
    let (found, index) = locate table m.addr hint in
    elim found [
      | none ↦ none
      | some r ↦ add_sizes table ms index (total + sizeof_entry + (length r.filename + 1))
    ]

-- The loop that writes its entries; `resolve` is `buxn_jit_hook_resolve_addr`.
unfoldable pub write_entries : Table → (ℕ → ℕ) → List Mapping → ℕ → Option (List Write)
write_entries table resolve [] hint = some []
write_entries table resolve (m ∷ ms) hint =
    let (found, index) = locate table m.addr hint in
    elim found [
      | none ↦ none
      | some r ↦ elim (write_entries table resolve ms index) [
        | none ↦ none
        | some ws ↦ some (debug_entry (resolve m.mark) r.line r.col ∷ text r.filename ∷ ws)
      ]
    ]

-- JIT_CODE_DEBUG_INFO and JIT_CODE_LOAD
abbrev pub id_debug_info : ℕ
id_debug_info = 2

abbrev pub id_load : ℕ
id_load = 0

-- The dummy line at the end of the debug information
abbrev pub dummy : ℕ → ℕ → List Write
dummy code_start code_size = debug_entry (code_start + code_size - 1) 0 0 ∷ text [] ∷ []

-- The record of the debug information, from the results of the two loops
abbrev pub assemble : Log → ℕ → ℕ → Option ℕ → Option (List Write) → Option (List Write)
assemble log code_start code_size none entries = none
assemble log code_start code_size (some total) none = none
assemble log code_start code_size (some total) (some ws) = some (
    rec_hdr id_debug_info (total % 2 ^ 32)
    ∷ debug_info code_start (log.len + 1)
    ∷ (ws ++ dummy code_start code_size))

-- The debug information of a block
unfoldable pub debug_record : Table → (ℕ → ℕ) → Log → ℕ → ℕ → Option (List Write)
unfolding add_sizes write_entries
debug_record table resolve log code_start code_size =
    if log.len == 0
    then some []
    else assemble log code_start code_size
        (add_sizes table (mappings_of log.chunks) 0 (sizeof_hdr + sizeof_info + sizeof_entry + 1))
        (write_entries table resolve (mappings_of log.chunks) 0)

-- All chunks go back to the pool.
abbrev pub emptied : Log → Log
emptied log = record { chunks = []; len = 0; pool = log.pool + length log.chunks }

-- A digit of `%04x`
abbrev pub hex : ℕ → ℕ
hex d = if ltb d 10 then 48 + d else 87 + d

abbrev pub hex4 : ℕ → List ℕ
hex4 n = hex (n / 2 ^ 12 % 16) ∷ hex (n / 2 ^ 8 % 16) ∷ hex (n / 2 ^ 4 % 16) ∷ hex (n % 16) ∷ []

abbrev pub label_text : ℕ → Option Label → List ℕ
label_text addr none = 0x40 ∷ 0x3f ∷ []
label_text addr (some l) = (if l.addr == addr then 0x40 else 0x7e) ∷ l.name

-- "uxn:0x%04x%s%.*s": `name_len` is its length, also where it is longer than the array `name`.
unfoldable pub block_name : ℕ → Option Label → List ℕ
block_name addr label =
    0x75 ∷ 0x78 ∷ 0x6e ∷ 0x3a ∷ 0x30 ∷ 0x78 ∷ (hex4 addr ++ label_text addr label)

-- `sizeof(name)`
abbrev pub name_size : ℕ
name_size = 512

abbrev pub load_writes : ℕ → ℕ → ℕ → List ℕ → List Write
load_writes code_start code_size code_index name =
    rec_hdr id_load ((sizeof_hdr + sizeof_load + (length name + 1) + code_size) % 2 ^ 32)
    ∷ code_load code_start code_size code_index
    ∷ text name
    ∷ code_bytes code_start code_size
    ∷ []

-- The code of a block. The name is written with its 0, from an array of 512 bytes.
unfoldable pub load_record : ℕ → ℕ → ℕ → List ℕ → Option (List Write)
load_record code_start code_size code_index name =
    if ltb name_size (length name + 1)
    then none
    else some (load_writes code_start code_size code_index name)

-- The hook's data, less its configuration: which files are open, and the counter of blocks
pub record PerfHook : Type 0 where
  pub has_map : Bool
  pub has_dump : Bool
  pub code_index : ℕ
  pub log : Log

-- What is written to the dump file
unfoldable pub dump_block :
    Table → (ℕ → ℕ) → PerfHook → List ℕ → ℕ → ℕ → Option (List Write × PerfHook)
unfolding debug_record load_record
dump_block table resolve hook name code_start code_size =
    elim (debug_record table resolve hook.log code_start code_size) [
      | none ↦ none
      | some info ↦ elim (load_record code_start code_size hook.code_index name) [
        | none ↦ none
        | some load ↦ some (
          info ++ load,
          record hook { code_index = (hook.code_index + 1) % 2 ^ 32; log = emptied hook.log },
        )
      ]
    ]

abbrev pub map_writes : Bool → ℕ → ℕ → List ℕ → List Write
map_writes has_map code_start code_size name =
    if has_map then map_line code_start code_size name ∷ [] else []

-- `buxn_jit_perf_end_block`
unfoldable pub perf_end_block :
    Table → List Label → (ℕ → ℕ) → PerfHook → ℕ → ℕ → ℕ → Option (List Write × PerfHook)
unfolding block_name dump_block pc_to_label
perf_end_block table labels resolve hook entry_addr code_start code_size =
    let name = block_name entry_addr (pc_to_label labels entry_addr) in
    let lines = map_writes hook.has_map code_start code_size name in
    if hook.has_dump
    then elim (dump_block table resolve hook name code_start code_size) [
      | none ↦ none
      | some (writes, hook') ↦ some (lines ++ writes, hook')
    ]
    else some (lines, hook)
