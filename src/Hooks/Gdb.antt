-- ===== src/Hooks/Gdb.antt =====
-- src/gdb/hook.c: what is handed to gdb for each block, and gdb's list of entries. An entry is known by
-- a number, and its two links are the values of two maps.
pub mod Listed
use buxn_jit.Prelude.{
  ℕ, ◌≡◌, ◌≢◌, refl, sym, ◌∙◌, ap, ◌==◌, Option, none, some, List, [], ◌∷◌, update, arith,
  if◌then◌else◌,
}
use buxn_jit.Hooks.LabelMap.{Label, pc_to_label}
use buxn_jit.Hooks.Mappings.{Mapping, Log, mappings_of}
use buxn_jit.Hooks.Perf.{Table, locate, emptied}

-- `jit_actions_t`, less the one of no action
pub data Action : Type 0 where
  register_fn unregister_fn : Action

-- A call of `__jit_debug_register_code`, with the action and the entry that it is about
pub record Notice : Type 0 where
  pub action : Action
  pub entry : ℕ

-- `__jit_debug_descriptor` with the links of the entries, and the calls, the last one first
pub record Registry : Type 0 where
  pub first_entry : Option ℕ
  pub next_entry : ℕ → Option ℕ
  pub prev_entry : ℕ → Option ℕ
  pub notices : List Notice

abbrev pub notify : Action → ℕ → Registry → Registry
notify action entry r = record r { notices = record { action = action; entry = entry } ∷ r.notices }

-- `if (e) { e->prev_entry = p; }`, and the same of `next_entry`
abbrev pub set_prev : Option ℕ → Option ℕ → Registry → Registry
set_prev none p r = r
set_prev (some e) p r = record r { prev_entry = update r.prev_entry e p }

abbrev pub set_next : Option ℕ → Option ℕ → Registry → Registry
set_next none n r = r
set_next (some e) n r = record r { next_entry = update r.next_entry e n }

-- The links of a new entry
abbrev pub linked_in : ℕ → Registry → Registry
linked_in entry r = record r {
  next_entry = update r.next_entry entry r.first_entry;
  prev_entry = update r.prev_entry entry none;
}

-- The end of `buxn_jit_gdb_end_block`, for a new entry
unfoldable pub register : ℕ → Registry → Registry
register entry r =
    let r1 = linked_in entry r in
    let r2 = set_prev r.first_entry (some entry) r1 in
    notify register_fn entry (record r2 { first_entry = some entry })

-- The loop of `buxn_jit_cleanup_gdb_hook`, over the entries of one hook
unfoldable pub unregister : ℕ → Registry → Registry
unregister entry r =
    let r1 = set_prev (r.next_entry entry) (r.prev_entry entry) r in
    let r2 = set_next (r1.prev_entry entry) (r1.next_entry entry) r1 in
    notify unregister_fn entry r2

unfoldable pub cleanup_hook : List ℕ → Registry → Registry
unfolding unregister
cleanup_hook [] r = r
cleanup_hook (entry ∷ blocks) r = cleanup_hook blocks (unregister entry r)

-- `buxn_jit_dbg_line_mapping_t`
pub record LineMapping : Type 0 where
  pub pc : ℕ
  pub line : ℕ
  pub file : List ℕ

-- `buxn_jit_dbg_info_t`; the name is empty where there is no label
pub record DbgInfo : Type 0 where
  pub addr : ℕ
  pub start : ℕ
  pub size : ℕ
  pub name : List ℕ
  pub mappings : List LineMapping

abbrev pub info_name : ℕ → Option Label → List ℕ
info_name addr none = []
info_name addr (some l) = (if l.addr == addr then 0x40 else 0x7e) ∷ l.name

-- The loop over the address mappings; none where a symbol is not found, which is read through NULL.
unfoldable pub line_mappings : Table → (ℕ → ℕ) → List Mapping → ℕ → Option (List LineMapping)
line_mappings table resolve [] hint = some []
line_mappings table resolve (m ∷ ms) hint =
    let (found, index) = locate table m.addr hint in
    elim found [
      | none ↦ none
      | some r ↦ elim (line_mappings table resolve ms index) [
        | none ↦ none
        | some ls ↦ some (record { pc = resolve m.mark; line = r.line; file = r.filename } ∷ ls)
      ]
    ]

-- The data of one hook: its blocks, the last one first
pub record GdbHook : Type 0 where
  pub blocks : List (ℕ × DbgInfo)
  pub log : Log

-- `buxn_jit_gdb_end_block`; `entry` is the number of the new entry.
unfoldable pub gdb_end_block :
    Table → List Label → (ℕ → ℕ) → ℕ → GdbHook → Registry → ℕ → ℕ → ℕ → Option (GdbHook × Registry)
unfolding register line_mappings pc_to_label
gdb_end_block table labels resolve entry hook r addr start size =
    elim (line_mappings table resolve (mappings_of hook.log.chunks) 0) [
      | none ↦ none
      | some mappings ↦
          let info : DbgInfo = record {
            addr = addr;
            start = start;
            size = size;
            name = info_name addr (pc_to_label labels addr);
            mappings = mappings;
          } in
          some (
            record { blocks = (entry, info) ∷ hook.blocks; log = emptied hook.log },
            register entry r,
          )
    ]
