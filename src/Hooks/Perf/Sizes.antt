-- ===== src/Hooks/Perf/Sizes.antt =====
-- src/perf.c: the size in the header of a record is the size of what is written for it.
use buxn_jit.Prelude.{
  ℕ, ◌+◌, ◌%◌, ◌^◌, ◌≤◌, ◌<◌, ◌≡◌, refl, sym, ◌∙◌, ap, ◌==◌, ltb, false, Option, none, some, List,
  [], ◌∷◌, ◌++◌, length, arith, if◌then◌else◌,
}
use buxn_jit.Hooks.LabelMap.{Label}
use buxn_jit.Hooks.Mappings.{Mapping, Log, IsValid, mappings_of}
use buxn_jit.Hooks.Perf.{
  Region, Write, rec_hdr, debug_info, debug_entry, text, write_size, sizeof_entry, sizeof_hdr,
  sizeof_info, Table, locate, add_sizes, write_entries, debug_record, id_debug_info, name_size,
  assemble, dummy, load_writes, load_record, block_name,
}

-- The bytes that a sequence of writes adds to the dump file
pub sizes : List Write → ℕ
sizes [] = 0
sizes (w ∷ ws) = write_size w + sizes ws

-- The entries of the debug information among them
pub entries : List Write → ℕ
entries [] = 0
entries (debug_entry a b c ∷ ws) = 1 + entries ws
entries (_ ∷ ws) = entries ws

sizes-append : (xs ys : List Write) → sizes (xs ++ ys) ≡ sizes xs + sizes ys
unfolding sizes
sizes-append [] ys = omega arith
sizes-append (x ∷ xs) ys = omega (arith, sizes-append xs ys)

-- What a step of the second loop writes
abbrev entry_writes : (ℕ → ℕ) → Mapping → Region → List Write → List Write
entry_writes resolve m r ws = debug_entry (resolve m.mark) r.line r.col ∷ text r.filename ∷ ws

abbrev with_entry : (ℕ → ℕ) → Mapping → Region → Option (List Write) → Option (List Write)
with_entry resolve m r rest = elim rest [
  | none ↦ none
  | some ws ↦ some (entry_writes resolve m r ws)
]

with_entry-some :
    (resolve : ℕ → ℕ) (m : Mapping) (r : Region) (rest : Option (List Write)) (ws : List Write)
    → with_entry resolve m r rest ≡ some ws
    → (before : List Write) × (rest ≡ some before) × (ws ≡ entry_writes resolve m r before)
with_entry-some resolve m r none ws e = cc
with_entry-some resolve m r (some before) ws e = (before, refl, cc)

-- Both loops find the same symbols, so that the sizes agree, and there is an entry for each mapping.
entries-sizes :
    (table : Table) (resolve : ℕ → ℕ) (ms : List Mapping) (hint total sum : ℕ) (ws : List Write)
    → add_sizes table ms hint total ≡ some sum
    → write_entries table resolve ms hint ≡ some ws
    → (sum ≡ total + sizes ws) × (entries ws ≡ length ms)
unfolding add_sizes write_entries sizes write_size entries
entries-sizes table resolve [] hint total sum ws s w =
    let t : total ≡ sum = same total sum s in
    let e : [] ≡ ws = same [] ws w in rw⁻¹ e (omega (arith, t), refl)
  where
    same : {A : Type 0} (a b : A) → ◌≡◌ {A = Option A} (some a) (some b) → a ≡ b
    same a b e = cc
entries-sizes table resolve (m ∷ ms) hint total sum ws s w =
    by_found (locate table m.addr hint).0 (locate table m.addr hint).1
      (λ index total before. entries-sizes table resolve ms index total sum before) s w
  where
    by_found :
        (found : Option Region) (index : ℕ)
        → ((index total : ℕ) (before : List Write)
            → add_sizes table ms index total ≡ some sum
            → write_entries table resolve ms index ≡ some before
            → (sum ≡ total + sizes before) × (entries before ≡ length ms))
        → ◌≡◌ {A = Option ℕ}
            (elim found [
              | none ↦ none
              | some r ↦ add_sizes table ms index (total + sizeof_entry + (length r.filename + 1))
            ])
            (some sum)
        → ◌≡◌ {A = Option (List Write)}
            (elim found [
              | none ↦ none
              | some r ↦ with_entry resolve m r (write_entries table resolve ms index)
            ])
            (some ws)
        → (sum ≡ total + sizes ws) × (entries ws ≡ length (m ∷ ms))
    by_found none index ih s w = cc
    by_found (some r) index ih s w =
        let (before, rest, made) =
          with_entry-some resolve m r (write_entries table resolve ms index) ws w in
        let (size, count) =
          ih index (total + sizeof_entry + (length r.filename + 1)) before s rest in
        rw made (omega (arith, size), omega (arith, count))

entries-append : (xs ys : List Write) → entries (xs ++ ys) ≡ entries xs + entries ys
unfolding entries
entries-append [] ys = omega arith
entries-append (debug_entry a b c ∷ xs) ys = omega (arith, entries-append xs ys)
entries-append (rec_hdr a b ∷ xs) ys = entries-append xs ys
entries-append (debug_info a b ∷ xs) ys = entries-append xs ys
entries-append (Write.code_load a b c ∷ xs) ys = entries-append xs ys
entries-append (text a ∷ xs) ys = entries-append xs ys
entries-append (Write.code_bytes a b ∷ xs) ys = entries-append xs ys
entries-append (Write.map_line a b c ∷ xs) ys = entries-append xs ys

-- The first write is a header, with the size of all writes in 32 bits.
pub IsRecord : List Write → Type 0
IsRecord (rec_hdr id total_size ∷ ws) = total_size ≡ (sizeof_hdr + sizes ws) % 2 ^ 32
IsRecord _ = ⊥

-- The second write announces the number of entries.
pub Announces : ℕ → List Write → Type 0
Announces n (h ∷ debug_info code_addr nr_entry ∷ ws) = nr_entry ≡ n
Announces n _ = ⊥

assemble-IsRecord :
    (table : Table) (resolve : ℕ → ℕ) (log : Log) (code_start code_size : ℕ) (ws : List Write)
    → IsValid log
    → (sum : Option ℕ) (es : Option (List Write))
    → add_sizes table (mappings_of log.chunks) 0 (sizeof_hdr + sizeof_info + sizeof_entry + 1) ≡ sum
    → write_entries table resolve (mappings_of log.chunks) 0 ≡ es
    → assemble log code_start code_size sum es ≡ some ws
    → IsRecord ws × Announces (entries ws) ws
unfolding IsRecord Announces entries sizes write_size
assemble-IsRecord table resolve log code_start code_size ws v none es s w e = cc
assemble-IsRecord table resolve log code_start code_size ws v (some total) none s w e = cc
assemble-IsRecord table resolve log code_start code_size ws v (some total) (some es) s w e =
    let ms = mappings_of log.chunks in
    let made = record_of total es in
    let (size, count) =
      entries-sizes table resolve ms 0 (sizeof_hdr + sizeof_info + sizeof_entry + 1) total es s w in
    let counted = v.counted in
    rw⁻¹ (same (record_of total es) e) (
      omega (arith, size, sizes-append es (dummy code_start code_size)),
      omega (arith, count, counted, entries-append es (dummy code_start code_size)),
    )
  where
    record_of : ℕ → List Write → List Write
    record_of total es =
        rec_hdr id_debug_info (total % 2 ^ 32)
        ∷ debug_info code_start (log.len + 1)
        ∷ (es ++ dummy code_start code_size)

    same : (a : List Write) → ◌≡◌ {A = Option (List Write)} (some a) (some ws) → a ≡ ws
    same a e = cc

-- For a valid log with mappings, whose symbols are all found, the debug information of a block is
-- one record: its header has the size of all that is written, in 32 bits, and it announces as many
-- entries as it has.
pub debug_record-IsRecord :
    (table : Table) (resolve : ℕ → ℕ) (log : Log) (code_start code_size : ℕ) (ws : List Write)
    → IsValid log
    → 0 < log.len
    → debug_record table resolve log code_start code_size ≡ some ws
    → IsRecord ws × Announces (entries ws) ws
unfolding debug_record
debug_record-IsRecord table resolve log code_start code_size ws v some_len e =
    let ms = mappings_of log.chunks in
    let long : (log.len == 0) ≡ false = ground arith in
    let sum = add_sizes table ms 0 (sizeof_hdr + sizeof_info + sizeof_entry + 1) in
    let es = write_entries table resolve ms 0 in
    assemble-IsRecord table resolve log code_start code_size ws v sum es refl refl
      (sym (ap (λ b. if b then some [] else assemble log code_start code_size sum es) long) ∙ e)

load_record-short :
    (code_start code_size code_index : ℕ) (name : List ℕ)
    → length name < name_size
    → (ws : List Write) × (load_record code_start code_size code_index name ≡ some ws) × IsRecord ws
unfolding load_record IsRecord sizes write_size
load_record-short code_start code_size code_index name h =
    let fits : ltb name_size (length name + 1) ≡ false = ground arith in
    (load_writes code_start code_size code_index name, rw fits refl, omega arith)

block_name-length :
    (addr : ℕ) (label : Label) → length (block_name addr (some label)) ≡ 11 + length label.name
unfolding block_name
block_name-length addr label = omega arith

-- The code of a block is one record, whose header has its size, if the label of the block has at
-- most 500 bytes.
pub load_record-IsRecord :
    (code_start code_size code_index addr : ℕ) (label : Label)
    → length label.name ≤ 500
    → (ws : List Write) × (load_record code_start code_size code_index
          (block_name addr (some label))
        ≡ some ws)
      × IsRecord ws
load_record-IsRecord code_start code_size code_index addr label short =
    load_record-short code_start code_size code_index _
      (omega (arith, block_name-length addr label))
