-- ===== src/Tests/Tools.antt =====
-- The theorems on the tools, at small inputs.
use buxn_jit.Prelude.{
  ℕ, ◌+◌, ◌≡◌, refl, true, false, ◌++◌, Option, none, some, List, [], ◌∷◌, Bool, arith, ◌==◌,
  if◌then◌else◌,
}
use buxn_jit.Hooks.LabelMap.{Label}
use buxn_jit.Hooks.Mappings.{Log, IsValid}
use buxn_jit.Hooks.Symbols.{Symbol, find_symbol}
use buxn_jit.Hooks.Perf.{Write, Table, debug_record, load_record, block_name}
use buxn_jit.Hooks.Perf.Sizes.{
  IsRecord, Announces, entries, debug_record-IsRecord, load_record-IsRecord,
}
use buxn_jit.Hooks.Gdb.{Registry, register}
use buxn_jit.Hooks.Gdb.Listed.{IsListed, Chain, Distinct, Without, register-IsListed}
use buxn_jit.Hooks.Reader.{ReadMapping, ReadInfo, read_block}
use buxn_jit.Hooks.Reader.Lines.{lines_of, all_lines, Alternates, read_block_lem}
use buxn_jit.Cli.SymFile.{before, read_syms, print_syms, NonZero, WellFormed, CutOff, read-print}
use buxn_jit.Cli.Console.{Event, event, console_stdin, send_args, receive, receive-send_args}
use buxn_jit.Cli.Boot.{Host, input_loop, Delivered, input_loop-Delivered}
use buxn_jit.Hooks.Composite.{all_begin_block, all_jit_opcode, all_end_block}
use buxn_jit.Hooks.Composite.Calls.{
  Call, Part, Forest, single, group, no_trees, more, hooks_of, all_calls, composite-calls,
}
use buxn_jit.Cli.Rom.{Overrun, read_rom, read_rom-fits, read_rom-over}

abbrev symbol : Symbol
symbol = record { is_opcode = true; addr_min = 0x100; addr_max = 0x10f }

abbrev table : Table
table = record {
  symbols = symbol ∷ [];
  region = λ i. record { filename = 0x61 ∷ 0x62 ∷ []; line = i + 3; col = 1 };
}

abbrev log : Log
log = record {
  chunks = (record { mark = 1; addr = 0x100 } ∷ record { mark = 2; addr = 0x103 } ∷ []) ∷ [];
  len = 2;
  pool = 0;
}

abbrev resolve : ℕ → ℕ
resolve mark = 0x8000 + mark

log-IsValid : IsValid log
log-IsValid = record { fits = (omega arith, tt); counted = refl }

abbrev or_empty : Option (List Write) → List Write
or_empty none = []
or_empty (some ws) = ws

abbrev debug_writes : List Write
debug_writes = or_empty (debug_record table resolve log 0x8000 64)

written : debug_record table resolve log 0x8000 64 ≡ some debug_writes
unfolding debug_record find_symbol
written = refl

debug_record-IsRecord_example :
    IsRecord debug_writes × Announces (entries debug_writes) debug_writes
debug_record-IsRecord_example =
    debug_record-IsRecord table resolve log 0x8000 64 debug_writes log-IsValid (omega arith) written

abbrev label : Label
label = record { addr = 0x100; name = 0x6f ∷ 0x6e ∷ [] }

load_record-IsRecord_example :
    (ws : List Write) × (load_record 0x8000 64 0 (block_name 0x100 (some label)) ≡ some ws)
    × IsRecord ws
load_record-IsRecord_example = load_record-IsRecord 0x8000 64 0 0x100 label (omega arith)

abbrev no_entries : Registry
no_entries = record {
  first_entry = none;
  next_entry = λ e. none;
  prev_entry = λ e. none;
  notices = [];
}

no_entries-IsListed : IsListed [] no_entries
unfolding Chain Distinct
no_entries-IsListed = record { chain = refl; distinct = tt }

one_entry-IsListed : IsListed (4 ∷ []) (register 4 no_entries)
unfolding Without
one_entry-IsListed = register-IsListed 4 [] no_entries tt no_entries-IsListed

new_entry : Without 5 (4 ∷ [])
unfolding Without
new_entry = ((λ e. absurd (omega (arith, e))), tt)

register-IsListed_example : IsListed (5 ∷ 4 ∷ []) (register 5 (register 4 no_entries))
register-IsListed_example =
    register-IsListed 5 (4 ∷ []) (register 4 no_entries) new_entry one_entry-IsListed

abbrev read_info : ReadInfo
read_info = record { start = 0x8000; size = 64 }

abbrev read_mapping : ℕ → ℕ → ReadMapping
read_mapping pc file = record { pc = pc; line = pc + 1; file_ptr = file; file_len = 2 }

abbrev read_mappings : List ReadMapping
read_mappings = read_mapping 0x8001 7 ∷ read_mapping 0x8002 7 ∷ read_mapping 0x8003 9 ∷ []

abbrev file_name : ℕ → ℕ → List ℕ
file_name ptr len = ptr ∷ len ∷ []

read_block_example :
    (lines_of (read_block (λ p n. some (file_name p n)) read_info (some read_mappings))
      ≡ all_lines read_mappings)
    × Alternates false (read_block (λ p n. some (file_name p n)) read_info (some read_mappings))
read_block_example = read_block_lem file_name read_info read_mappings

abbrev labels : List Label
labels = label ∷ record { addr = 0x1ff; name = 0x65 ∷ [] } ∷ []

labels-WellFormed : WellFormed labels
unfolding WellFormed NonZero
labels-WellFormed = (omega arith, (refl, (refl, tt)), (omega arith, (refl, tt), tt))

cut_off : CutOff (1 ∷ 2 ∷ 0x66 ∷ [])
unfolding CutOff NonZero
cut_off = (refl, tt)

read-print_example : read_syms before (print_syms labels (1 ∷ 2 ∷ 0x66 ∷ [])) ≡ labels
read-print_example = read-print labels (1 ∷ 2 ∷ 0x66 ∷ []) labels-WellFormed cut_off

receive-send_args_example :
    receive []
      (send_args ((0x61 ∷ []) ∷ [] ∷ (0x62 ∷ 0x63 ∷ []) ∷ []) ++ (event console_stdin 5 ∷ []))
    ≡ (0x61 ∷ []) ∷ [] ∷ (0x62 ∷ 0x63 ∷ []) ∷ []
receive-send_args_example =
    receive-send_args (0x61 ∷ []) ([] ∷ (0x62 ∷ 0x63 ∷ []) ∷ []) (event console_stdin 5 ∷ [])

-- A program that ends at the byte 3
abbrev host : Host (List Event)
host = record {
  run = λ v pc. v;
  set_event = λ v e. e ∷ v;
  vector = λ v. 0x100;
  exit_code = λ v. elim v [ [] ↦ none | e ∷ es ↦ if e.value == 3 then some 0 else none ];
  should_send_input = λ v. true;
}

input_loop-Delivered_example :
    Delivered host [] (1 ∷ 3 ∷ 5 ∷ []) (input_loop host [] (1 ∷ 3 ∷ 5 ∷ []))
input_loop-Delivered_example = input_loop-Delivered host [] (1 ∷ 3 ∷ 5 ∷ [])

read_rom-fits_example : read_rom 65536 3001 256 3000 ≡ 256 + 3000
read_rom-fits_example = read_rom-fits 65536 3001 256 3000 (omega arith) (omega arith)

read_rom-over_example : Overrun 65536 256 65290 (read_rom 65536 65291 256 65290)
read_rom-over_example =
    read_rom-over 65536 65291 256 65290 (omega arith) (omega arith) (omega arith)

abbrev part : ℕ → Bool → Part
part n opcodes = record {
  number = n;
  has_begin_block = true;
  has_jit_opcode = opcodes;
  has_end_block = false;
}

-- Two parts, of which the first does not listen to opcodes, in a hook beside a third
abbrev nested : Forest
nested =
    more (group (more (single (part 1 false)) (more (single (part 2 true)) no_trees)))
      (more (single (part 3 true)) no_trees)

abbrev call : ℕ → ℕ → ℕ → Call
call n first second = record { part = n; first = first; second = second }

composite-calls_example :
    (all_begin_block (hooks_of nested) [] ≡ call 1 0 0 ∷ call 2 0 0 ∷ call 3 0 0 ∷ [])
    × (all_jit_opcode (hooks_of nested) 0x100 0x18 [] ≡ call 2 0x100 0x18 ∷ call 3 0x100 0x18 ∷ [])
    × (all_end_block (hooks_of nested) 0x100 0x18 [] ≡ [])
unfolding all_calls
composite-calls_example = composite-calls nested 0x100 0x18 []
