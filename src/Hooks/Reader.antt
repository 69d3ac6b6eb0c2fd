-- ===== src/Hooks/Reader.antt =====
-- src/gdb/reader.c: the plug-in with which gdb reads what the hook registered. Its calls of gdb are
-- data; the memory of the debugged program is a function that may fail.
pub mod Lines
use buxn_jit.Hooks.Perf.{hex4}
use buxn_jit.Prelude.{
  length, ltb, ℕ, zero, suc, ◌+◌, ◌-◌, ◌*◌, ◌%◌, ◌^◌, ◌≤◌, ◌<◌, ◌≡◌, refl, sym, ◌∙◌, ap, ◌==◌, leb,
  ◌&&◌, Bool, true, false, Bool-cases, inl, inr, Option, none, some, List, [], ◌∷◌, ◌++◌,
  append-nil, append_assoc, arith, if◌then◌else◌,
}

-- `buxn_jit_dbg_line_mapping_t` as it is read, with the pointer to the file's name
pub record ReadMapping : Type 0 where
  pub pc : ℕ
  pub line : ℕ
  pub file_ptr : ℕ
  pub file_len : ℕ

-- `buxn_jit_dbg_info_t` as it is read
pub record ReadInfo : Type 0 where
  pub start : ℕ
  pub size : ℕ

-- `struct gdb_line_mapping`
pub record GdbLine : Type 0 where
  pub line : ℕ
  pub pc : ℕ

pub data GdbCall : Type 0 where
  object_open : GdbCall
  symtab_open : List ℕ → GdbCall
  line_mapping_add : List GdbLine → GdbCall
  block_open : ℕ → ℕ → GdbCall
  symtab_close : GdbCall
  object_close : GdbCall

abbrev pub gdb_line : ReadMapping → GdbLine
gdb_line m = record { line = m.line; pc = m.pc }

-- What ends a symbol table: the lines that it has, if any, its block, and the call that closes it
abbrev pub close_symtab : List GdbLine → ℕ → ℕ → List GdbCall
close_symtab [] low high = block_open low high ∷ symtab_close ∷ []
close_symtab (l ∷ ls) low high = line_mapping_add (l ∷ ls) ∷ block_open low high ∷ symtab_close ∷ []

abbrev pub pc_before : ℕ → ℕ
pc_before pc = (pc + 2 ^ 64 - 1) % 2 ^ 64

-- The loop over the line mappings with what follows it: `lines` are those of the open symbol table,
-- `code_start` its first address, `file` the pointer to the name of its file. Where a name cannot be
-- read, the table that has just been closed is used again.
unfoldable pub add_lines :
    (ℕ → ℕ → Option (List ℕ)) → ℕ → List GdbLine → ℕ → ℕ → List ReadMapping → List GdbCall
add_lines target end lines code_start file [] = close_symtab lines code_start end
add_lines target end lines code_start file (m ∷ ms) = elim (m.file_ptr == file) [
  | true ↦ add_lines target end (lines ++ (gdb_line m ∷ [])) code_start file ms
  | false ↦ close_symtab lines code_start (pc_before m.pc) ++ elim (target m.file_ptr m.file_len) [
    | none ↦ close_symtab [] code_start end
    | some name ↦ symtab_open name ∷ add_lines target end (gdb_line m ∷ []) m.pc m.file_ptr ms
  ]
]

-- `sizeof(name_buf)`
abbrev pub buf_size : ℕ
buf_size = 256

-- "uxn:0x%04x", of ten bytes
abbrev pub addr_text : ℕ → List ℕ
addr_text addr = 0x75 ∷ 0x78 ∷ 0x6e ∷ 0x3a ∷ 0x30 ∷ 0x78 ∷ hex4 addr

-- The name of the block in `buxn_jit_gdb_read`: `name` is that of its label, and `readable` tells
-- whether it can be read. At most what fits is read, but the name is ended at its full length: none
-- where that is beyond the array.
unfoldable pub block_label : ℕ → List ℕ → Bool → Option (List ℕ)
block_label addr name readable =
    if length name == 0
    then some (addr_text addr)
    else if readable
    then if ltb (10 + length name) buf_size then some (addr_text addr ++ name) else none
    else some (addr_text addr)

abbrev uxn : List ℕ
uxn = 0x75 ∷ 0x78 ∷ 0x6e ∷ []

-- `buxn_jit_gdb_read` but for the name of the block, which goes with each of its calls; `mappings` is none where they
-- cannot be read.
unfoldable pub read_block :
    (ℕ → ℕ → Option (List ℕ)) → ReadInfo → Option (List ReadMapping) → List GdbCall
unfolding add_lines
read_block target info mappings =
    let end = (info.start + info.size) % 2 ^ 64 in
    object_open
    ∷ symtab_open uxn
    ∷ (elim mappings [
      | none ↦ close_symtab [] info.start end
      | some ms ↦ add_lines target end [] info.start 0 ms
    ]
        ++ (object_close ∷ []))

-- `buxn_jit_gdb_lookup_dbg_info`
unfoldable pub lookup_dbg_info : List ReadInfo → ℕ → Option ReadInfo
lookup_dbg_info [] pc = none
lookup_dbg_info (info ∷ infos) pc =
    let rest = lookup_dbg_info infos pc in
    if leb info.start pc && leb pc (info.start + info.size) then some info else rest

-- `sizeof(uintptr_t)` on x86-64
abbrev pub word : ℕ
word = 8

-- The caller's registers
pub record CallerFrame : Type 0 where
  pub sp : ℕ
  pub pc : ℕ

-- One return: its address is behind a word of the stack, and both are left behind.
abbrev pub return_frame : (ℕ → Option ℕ) → ℕ → Option CallerFrame
return_frame memory sp = elim (memory ((sp + word) % 2 ^ 64)) [
  | none ↦ none
  | some pc ↦ some (record { sp = (sp + word * 2) % 2 ^ 64; pc = pc })
]

-- `buxn_jit_gdb_unwind` on x86-64: in a block's own code there are two returns.
unfoldable pub unwind : List ReadInfo → (ℕ → Option ℕ) → ℕ → ℕ → Option CallerFrame
unfolding lookup_dbg_info
unwind infos memory sp pc = elim (return_frame memory sp) [
  | none ↦ none
  | some frame ↦ elim (lookup_dbg_info infos pc) [
    | none ↦ some frame
    | some info ↦ return_frame memory frame.sp
  ]
]

-- `buxn_jit_gdb_get_frame_id`
abbrev pub code_address : Option ReadInfo → ℕ → ℕ
code_address none pc = pc
code_address (some info) pc = info.start

unfoldable pub frame_id : List ReadInfo → ℕ → ℕ → CallerFrame
unfolding lookup_dbg_info
frame_id infos sp pc = record { sp = sp; pc = code_address (lookup_dbg_info infos pc) pc }
