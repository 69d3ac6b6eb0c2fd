-- ===== src/Hooks/Reader/Lines.antt =====
-- src/gdb/reader.c: gdb is told of all lines of a block, in well-formed calls.
use buxn_jit.Prelude.{
  ℕ, ◌+◌, ◌%◌, ◌^◌, ◌≡◌, refl, sym, ◌∙◌, ap, ◌==◌, leb, ◌&&◌, Bool, true, false, Bool-cases, inl,
  inr, some, List, [], ◌∷◌, ◌++◌, append-nil, append_assoc, arith,
}
use mathlib.Core.Path.{subst}
use buxn_jit.Hooks.Reader.{
  ReadMapping, ReadInfo, GdbLine, GdbCall, object_open, symtab_open, line_mapping_add, block_open,
  symtab_close, object_close, gdb_line, close_symtab, pc_before, add_lines, read_block,
  lookup_dbg_info,
}

-- The lines that gdb is told of
pub lines_of : List GdbCall → List GdbLine
lines_of [] = []
lines_of (line_mapping_add ls ∷ calls) = ls ++ lines_of calls
lines_of (_ ∷ calls) = lines_of calls

-- Symbol tables are opened and closed in turn, with lines and blocks only while one is open.
pub Alternates : Bool → List GdbCall → Type 0
Alternates open_now [] = open_now ≡ false
Alternates open_now (symtab_open name ∷ calls) = (open_now ≡ false) × Alternates true calls
Alternates open_now (symtab_close ∷ calls) = (open_now ≡ true) × Alternates false calls
Alternates open_now (line_mapping_add ls ∷ calls) = (open_now ≡ true) × Alternates open_now calls
Alternates open_now (block_open low high ∷ calls) = (open_now ≡ true) × Alternates open_now calls
Alternates open_now (object_open ∷ calls) = Alternates open_now calls
Alternates open_now (object_close ∷ calls) = Alternates open_now calls

pub all_lines : List ReadMapping → List GdbLine
all_lines [] = []
all_lines (m ∷ ms) = gdb_line m ∷ all_lines ms

close-lines :
    (ls : List GdbLine) (low high : ℕ) (calls : List GdbCall)
    → lines_of (close_symtab ls low high ++ calls) ≡ ls ++ lines_of calls
unfolding lines_of
close-lines [] low high calls = refl
close-lines (l ∷ ls) low high calls = refl

close-Alternates :
    (ls : List GdbLine) (low high : ℕ) (calls : List GdbCall)
    → Alternates false calls
    → Alternates true (close_symtab ls low high ++ calls)
unfolding Alternates
close-Alternates [] low high calls h = (refl, (refl, h))
close-Alternates (l ∷ ls) low high calls h = (refl, (refl, (refl, h)))

module _ (names : ℕ → ℕ → List ℕ) (end : ℕ) where
  -- The loop where all names can be read
  readable : List GdbLine → ℕ → ℕ → List ReadMapping → List GdbCall
  readable lines code_start file ms =
      add_lines (λ p n. some (names p n)) end lines code_start file ms

  same_file :
      (lines : List GdbLine) (code_start file : ℕ) (m : ReadMapping) (ms : List ReadMapping)
      → (m.file_ptr == file) ≡ true
      → readable lines code_start file (m ∷ ms)
        ≡ readable (lines ++ (gdb_line m ∷ [])) code_start file ms
  unfolding readable add_lines
  same_file lines code_start file m ms e =
      ap
        (λ b. elim b [
          | true ↦ readable (lines ++ (gdb_line m ∷ [])) code_start file ms
          | false ↦ next_file lines code_start m ms
        ])
        e
    where
      next_file : List GdbLine → ℕ → ReadMapping → List ReadMapping → List GdbCall
      next_file lines code_start m ms =
          close_symtab lines code_start (pc_before m.pc)
          ++ (symtab_open (names m.file_ptr m.file_len)
              ∷ readable (gdb_line m ∷ []) m.pc m.file_ptr ms)

  other_file :
      (lines : List GdbLine) (code_start file : ℕ) (m : ReadMapping) (ms : List ReadMapping)
      → (m.file_ptr == file) ≡ false
      → readable lines code_start file (m ∷ ms)
        ≡ close_symtab lines code_start (pc_before m.pc)
          ++ (symtab_open (names m.file_ptr m.file_len)
              ∷ readable (gdb_line m ∷ []) m.pc m.file_ptr ms)
  unfolding readable add_lines
  other_file lines code_start file m ms e =
      ap
        (λ b. elim b [
          | true ↦ readable (lines ++ (gdb_line m ∷ [])) code_start file ms
          | false ↦
              close_symtab lines code_start (pc_before m.pc)
              ++ (symtab_open (names m.file_ptr m.file_len)
                  ∷ readable (gdb_line m ∷ []) m.pc m.file_ptr ms)
        ])
        e

  add_lines-lines :
      (lines : List GdbLine) (code_start file : ℕ) (ms : List ReadMapping) (calls : List GdbCall)
      → lines_of (readable lines code_start file ms ++ calls)
        ≡ (lines ++ all_lines ms) ++ lines_of calls
  unfolding readable add_lines lines_of all_lines
  add_lines-lines lines code_start file [] calls =
      close-lines lines code_start end calls
      ∙ ap (λ l. l ++ lines_of calls) (sym (append-nil lines))
  add_lines-lines lines code_start file (m ∷ ms) calls = elim (Bool-cases (m.file_ptr == file)) [
    | inl same ↦
        ap (λ c. lines_of (c ++ calls)) (same_file lines code_start file m ms same)
        ∙ (add_lines-lines (lines ++ (gdb_line m ∷ [])) code_start file ms calls
            ∙ ap (λ l. l ++ lines_of calls) (append_assoc lines (gdb_line m ∷ []) (all_lines ms)))
    | inr other ↦
        let rest = readable (gdb_line m ∷ []) m.pc m.file_ptr ms in
        let closed = close_symtab lines code_start (pc_before m.pc) in
        ap (λ c. lines_of (c ++ calls)) (other_file lines code_start file m ms other)
        ∙ (ap lines_of
              (append_assoc closed (symtab_open (names m.file_ptr m.file_len) ∷ rest) calls)
            ∙ (close-lines lines code_start (pc_before m.pc)
                  (symtab_open (names m.file_ptr m.file_len) ∷ (rest ++ calls))
                ∙ (ap (λ l. lines ++ l) (add_lines-lines (gdb_line m ∷ []) m.pc m.file_ptr ms calls)
                    ∙ sym (append_assoc lines (gdb_line m ∷ all_lines ms) (lines_of calls)))))
  ]

  add_lines-Alternates :
      (lines : List GdbLine) (code_start file : ℕ) (ms : List ReadMapping) (calls : List GdbCall)
      → Alternates false calls
      → Alternates true (readable lines code_start file ms ++ calls)
  unfolding readable add_lines Alternates
  add_lines-Alternates lines code_start file [] calls h =
      close-Alternates lines code_start end calls h
  add_lines-Alternates lines code_start file (m ∷ ms) calls h =
      elim (Bool-cases (m.file_ptr == file)) [
        | inl same ↦
            subst (λ c. Alternates true (c ++ calls))
              (sym (same_file lines code_start file m ms same))
              (add_lines-Alternates (lines ++ (gdb_line m ∷ [])) code_start file ms calls h)
        | inr other ↦
            let rest = readable (gdb_line m ∷ []) m.pc m.file_ptr ms in
            let closed = close_symtab lines code_start (pc_before m.pc) in
            subst (λ c. Alternates true (c ++ calls))
              (sym (other_file lines code_start file m ms other))
              (subst (Alternates true)
                (sym (append_assoc closed (symtab_open (names m.file_ptr m.file_len) ∷ rest) calls))
                (close-Alternates lines code_start (pc_before m.pc)
                  (symtab_open (names m.file_ptr m.file_len) ∷ (rest ++ calls))
                  (refl, add_lines-Alternates (gdb_line m ∷ []) m.pc m.file_ptr ms calls h)))
      ]

-- Where all names of files can be read, gdb is told of each line of a block once and in order, and
-- the symbol tables are opened and closed in turn.
pub read_block_lem :
    (names : ℕ → ℕ → List ℕ) (info : ReadInfo) (ms : List ReadMapping)
    → (lines_of (read_block (λ p n. some (names p n)) info (some ms)) ≡ all_lines ms)
      × Alternates false (read_block (λ p n. some (names p n)) info (some ms))
unfolding read_block lines_of Alternates readable
read_block_lem names info ms =
    let end = (info.start + info.size) % 2 ^ 64 in
    (
      add_lines-lines names end [] info.start 0 ms (object_close ∷ []) ∙ append-nil (all_lines ms),
      (refl, add_lines-Alternates names end [] info.start 0 ms (object_close ∷ []) refl),
    )

-- The first address behind a block belongs to it as well: where the code of another block follows
-- at once, that block's own first address is taken for the end of the first.
pub lookup_dbg_info-adjacent :
    (info next : ReadInfo) (infos : List ReadInfo)
    → next.start ≡ info.start + info.size
    → lookup_dbg_info (info ∷ next ∷ infos) next.start ≡ some info
unfolding lookup_dbg_info
lookup_dbg_info-adjacent info next infos e =
    let inside : (leb info.start next.start && leb next.start (info.start + info.size)) ≡ true =
      ground arith in
    rw inside refl
