-- ===== src/Cli/Console.antt =====
-- src/cli.c: what the program sends to the console device, the arguments first.
use buxn_jit.Prelude.{
  append_assoc, append-nil, ℕ, ◌≡◌, sym, ◌∙◌, ap, Bool, true, false, List, [], ◌∷◌, ◌++◌,
}

-- The types of console events that the program uses
pub data ConsoleType : Type 0 where
  console_stdin console_arg console_arg_sep console_end : ConsoleType

-- A call of `buxn_console_send_data_jit`
pub record Event : Type 0 where
  pub type : ConsoleType
  pub value : ℕ

abbrev pub event : ConsoleType → ℕ → Event
event type value = record { type = type; value = value }

-- The events of one argument: `last` says that it is the only one left
unfoldable pub send_arg : Bool → List ℕ → List Event
send_arg true [] = event console_end 10 ∷ []
send_arg false [] = event console_arg_sep 10 ∷ []
send_arg last (ch ∷ arg) = event console_arg ch ∷ send_arg last arg

abbrev is_empty : List (List ℕ) → Bool
is_empty [] = true
is_empty (arg ∷ args) = false

-- `buxn_console_send_args_jit`
unfoldable pub send_args : List (List ℕ) → List Event
unfolding send_arg
send_args [] = []
send_args (arg ∷ args) = send_arg (is_empty args) arg ++ send_args args

-- How a program reads its arguments: they end at a separator, and at the end no other follows.
pub receive : List ℕ → List Event → List (List ℕ)
receive buf [] = []
receive buf (e ∷ events) = elim (e.type) [
  | console_arg ↦ receive (buf ++ (e.value ∷ [])) events
  | console_arg_sep ↦ buf ∷ receive [] events
  | console_end ↦ buf ∷ []
  | console_stdin ↦ receive buf events
]

receive-separated :
    (buf arg : List ℕ) (rest : List Event)
    → receive buf (send_arg false arg ++ rest) ≡ (buf ++ arg) ∷ receive [] rest
unfolding receive send_arg
receive-separated buf [] rest = ap (λ l. l ∷ receive [] rest) (sym (append-nil buf))
receive-separated buf (ch ∷ arg) rest =
    receive-separated (buf ++ (ch ∷ [])) arg rest
    ∙ ap (λ l. l ∷ receive [] rest) (append_assoc buf (ch ∷ []) arg)

receive-last :
    (buf arg : List ℕ) (rest : List Event)
    → receive buf (send_arg true arg ++ rest) ≡ (buf ++ arg) ∷ []
unfolding receive send_arg
receive-last buf [] rest = ap (λ l. l ∷ []) (sym (append-nil buf))
receive-last buf (ch ∷ arg) rest =
    receive-last (buf ++ (ch ∷ [])) arg rest ∙ ap (λ l. l ∷ []) (append_assoc buf (ch ∷ []) arg)

-- Each argument arrives as it is on the command line, and the last one ends the input of
-- arguments, whatever follows.
pub receive-send_args :
    (arg : List ℕ) (args : List (List ℕ)) (later : List Event)
    → receive [] (send_args (arg ∷ args) ++ later) ≡ arg ∷ args
unfolding send_args
receive-send_args arg [] later =
    ap (receive []) (append_assoc (send_arg true arg) [] later) ∙ receive-last [] arg later
receive-send_args arg (next ∷ args) later =
    ap (receive []) (append_assoc (send_arg false arg) (send_args (next ∷ args)) later)
    ∙ (receive-separated [] arg (send_args (next ∷ args) ++ later)
        ∙ ap (λ l. arg ∷ l) (receive-send_args next args later))
