-- ===== src/Cli/Boot.antt =====
-- src/cli.c, `boot` from the first execution on, and the calls that it makes. The VM, its devices and
-- the JIT are the argument `host`.
use buxn_jit.Prelude.{
  ℕ, ◌+◌, ◌<◌, length, ◌⊎◌, arith, zero, suc, ◌≡◌, ◌∙◌, ap, Bool, true, false, ◌&&◌, ltb,
  Bool-cases, inl, inr, Option, none, some, List, [], ◌∷◌, if◌then◌else◌,
}
use buxn_jit.Cli.Console.{Event, event, console_stdin, console_end, send_args}

pub record Host (V : Type 0) : Type 0 where
  -- `buxn_jit_execute`
  pub run : V → ℕ → V
  -- The assignments to the type and the value of the console device
  pub set_event : V → Event → V
  -- `buxn_vm_dev_load2(vm, 0x10)`
  pub vector : V → ℕ
  -- `buxn_system_exit_code`, none below 0
  pub exit_code : V → Option ℕ
  -- `buxn_console_should_send_input`
  pub should_send_input : V → Bool

abbrev is_running : Option ℕ → Bool
is_running none = true
is_running (some code) = false

abbrev or_zero : Option ℕ → ℕ
or_zero none = 0
or_zero (some code) = code

module _ {V : Type 0} (host : Host V) where
  -- `buxn_console_send_data_jit`
  unfoldable pub send_data : V → Event → V
  send_data v e = let v1 = host.set_event v e in host.run v1 (host.vector v1)

  unfoldable pub send_all : V → List Event → V
  unfolding send_data
  send_all v [] = v
  send_all v (e ∷ events) = send_all (send_data v e) events

  abbrev pub wants_input : V → Bool
  wants_input v = is_running (host.exit_code v) && host.should_send_input v

  -- The loop over the standard input, which ends where the list does
  unfoldable pub input_loop : V → List ℕ → V
  unfolding send_data
  input_loop v [] = if wants_input v then send_data v (event console_end 0) else v
  input_loop v (ch ∷ input) =
      let rest = input_loop (send_data v (event console_stdin ch)) input in
      if wants_input v then rest else v

  -- The exit code, and the VM at the end
  unfoldable pub boot : ℕ → V → List (List ℕ) → List ℕ → ℕ × V
  unfolding send_args send_all input_loop
  boot reset_vector v args input =
      let v1 = host.run v reset_vector in
      if ltb 0 (or_zero (host.exit_code v1))
      then (or_zero (host.exit_code v1), v1)
      else let v2 = send_all v1 (send_args args) in
        if ltb 0 (or_zero (host.exit_code v2))
        then (or_zero (host.exit_code v2), v2)
        else let v3 = input_loop v2 input in (or_zero (host.exit_code v3), v3)

  -- All that the program sends of its input
  pub input_events : List ℕ → List Event
  input_events [] = event console_end 0 ∷ []
  input_events (ch ∷ input) = event console_stdin ch ∷ input_events input

  pub prefix : ℕ → List Event → List Event
  prefix zero events = []
  prefix (suc n) [] = []
  prefix (suc n) (e ∷ events) = e ∷ prefix n events

  -- The number of events that were sent, that the program was running and listening before each of
  -- them, and why they were no more
  pub record Delivered (v : V) (input : List ℕ) (v' : V) : Type 0 where
    pub count : ℕ
    pub sent : v' ≡ send_all v (prefix count (input_events input))
    pub listening :
        (i : ℕ) → i < count → wants_input (send_all v (prefix i (input_events input))) ≡ true
    pub stopped : (count ≡ length input + 1) ⊎ (wants_input v' ≡ false)

  -- The input is delivered in order and without gaps, each byte only while the program runs and
  -- listens, and its end is told once, after all of it; less than that is delivered only if the
  -- program has ended or stops listening.
  pub input_loop-Delivered : (v : V) (input : List ℕ) → Delivered v input (input_loop v input)
  unfolding input_loop send_all prefix input_events
  input_loop-Delivered v [] =
      let at_end = λ (b : Bool). if b then send_data v (event console_end 0) else v in
      elim (Bool-cases (wants_input v)) [
        | inl wanted ↦ record {
          count = 1;
          sent = ap at_end wanted;
          listening = λ i h. let first : i ≡ 0 = omega arith in rw first wanted;
          stopped = inl (omega arith);
        }
        | inr unwanted ↦ record {
          count = 0;
          sent = ap at_end unwanted;
          listening = λ i h. absurd (omega arith);
          stopped = inr (ap wants_input (ap at_end unwanted) ∙ unwanted);
        }
      ]
  input_loop-Delivered v (ch ∷ input) =
      let sent = send_data v (event console_stdin ch) in
      let choose = λ (b : Bool). if b then input_loop sent input else v in
      elim (Bool-cases (wants_input v)) [
        | inl wanted ↦
            let d = input_loop-Delivered sent input in
            record {
              count = suc d.count;
              sent = ap choose wanted ∙ d.sent;
              listening = λ i. after_first v ch input d.count wanted d.listening i;
              stopped = elim d.stopped [
                | inl all ↦ inl (omega (arith, all))
                | inr unwanted ↦ inr (ap wants_input (ap choose wanted) ∙ unwanted)
              ];
            }
        | inr unwanted ↦ record {
          count = 0;
          sent = ap choose unwanted;
          listening = λ i h. absurd (omega arith);
          stopped = inr (ap wants_input (ap choose unwanted) ∙ unwanted);
        }
      ]
    where
      after_first :
          (v : V) (ch : ℕ) (input : List ℕ) (count : ℕ)
          → wants_input v ≡ true
          → ((i : ℕ)
              → i < count
              → wants_input
                  (send_all (send_data v (event console_stdin ch)) (prefix i (input_events input)))
                ≡ true)
          → (i : ℕ) → i < suc count
          → wants_input (send_all v (prefix i (input_events (ch ∷ input)))) ≡ true
      after_first v ch input count wanted later zero h = wanted
      after_first v ch input count wanted later (suc i) h = later i (omega arith)
