-- ===== src/Tests/Compiling.antt =====
-- The theorems on compiling, linking and execution, at a program that stops at once.
use buxn_jit.Prelude.{
  ℕ, ◌+◌, ◌^◌, ◌≡◌, ◌≢◌, refl, none, some, [], arith, length, ◌==◌, if◌then◌else◌,
}
use buxn_jit.Hamt.{search, put, prospector32}
use buxn_jit.Jit.{Jit, Entry, link_to_head, init, find_block, queue_block, request_link}
use buxn_jit.Ctx.{skip}
use buxn_jit.Regs.{op_flag_k}
use buxn_jit.Opcodes.Stack.{jit_brk}
use buxn_jit.Opcodes.Control.{Opcode, jit_jmi}
use buxn_jit.Compile.Prologue.{new_ctx}
use buxn_jit.Compile.Block.{Env, Code, compile_within, compile_block, enough}
use buxn_jit.Compile.Rounds.{compile_within-fuel}
use buxn_jit.Compile.Installed.{Yields}
use buxn_jit.Compile.Queues.{Outcome, done, failed, out_of_fuel, Worked, compile_all, translate}
use buxn_jit.Compile.Patched.{Patched, translate-Patched}
use buxn_jit.Compile.Translate.{Settled, Answered, init-Settled, translate-total, translate-Settled}
use buxn_jit.Compile.Execute.{Ran, Cause, execute, execute-failed}

abbrev code_of : ℕ → Code
code_of compiler = record {
  fn = some compiler;
  head_addr = 0x7000 + compiler;
  body_addr = 0x7010 + compiler;
  executable_offset = 0;
  size = 64;
}

abbrev env : Env
env = record {
  image = λ i. 0;
  decode = λ opcode. Opcode.brk;
  generate = λ compiler code head body. code_of compiler;
  jit_ptr = 0x5000;
  reset_vector = 256;
}

env-Yields : Yields env
env-Yields = record { code = λ compiler code head body e. cc }

abbrev entry : Entry
entry = record { link_type = link_to_head; block = 0x100; compiler = 0; jump = 0; pc = 0x100 }

compile_within-fuel_example :
    compile_within env skip enough (enough + 1) (new_ctx init env.image entry)
    ≡ compile_block env (new_ctx init env.image entry)
compile_within-fuel_example =
    compile_within-fuel env skip enough (enough + 1) init entry (omega arith) (omega arith)
      (omega arith)

translate-total_example : translate env (2 ^ 16 + 1) init 0x100 ≢ out_of_fuel
translate-total_example = translate-total env (2 ^ 16 + 1) init 0x100 (omega arith) (omega arith)

abbrev worked_of : Outcome Worked → Worked
worked_of (done w) = w
worked_of failed = record { jit = init; patches = []; freed = [] }
worked_of out_of_fuel = record { jit = init; patches = []; freed = [] }

answered : translate env 2 init 0x100 ≡ done (worked_of (translate env 2 init 0x100))
unfolding translate search put op_flag_k jit_brk
answered = refl

translate-Settled_example :
    Settled (worked_of (translate env 2 init 0x100)).jit
    × Answered (worked_of (translate env 2 init 0x100)).jit 0x100
translate-Settled_example =
    translate-Settled env 2 init 0x100 (worked_of (translate env 2 init 0x100)) (omega arith)
      env-Yields init-Settled answered

-- A block whose code returns an address that it must not
abbrev run : Unit {0} → Jit → ℕ → Ran (Unit {0})
run vm jit fn = record { next = 0x200; vm = vm; jit = jit }

abbrev interpret : Unit {0} → ℕ → Unit {0}
interpret vm pc = vm

stopped : execute run interpret env 2 init tt 0x100 ≡ failed
unfolding execute search put op_flag_k jit_brk
stopped = refl

execute-failed_example : Cause run interpret env 2 init tt 0x100
execute-failed_example =
    execute-failed run interpret env 2 init tt 0x100 (omega arith) env-Yields init-Settled stopped

-- JMI at 0x100, to a block that stops at once: one jump waits, to the new block.
abbrev jump_env : Env
jump_env = record env {
  image = λ i. if i == 0x100 then 0x40 else 0;
  decode = λ opcode. if opcode == 0x40 then Opcode.jmi else Opcode.brk;
}

jump_env-Yields : Yields jump_env
jump_env-Yields = record { code = λ compiler code head body e. cc }

abbrev jit_of : Outcome Jit → Jit
jit_of (done jit) = jit
jit_of failed = init
jit_of out_of_fuel = init

abbrev jumped : Jit
jumped = jit_of (compile_all jump_env 3 (queue_block init 0x100))

compiled_both : compile_all jump_env 3 (queue_block init 0x100) ≡ done jumped
unfolding compile_all queue_block search put op_flag_k jit_brk jit_jmi request_link prospector32
compiled_both = refl

one_waits : length jumped.link_queue ≡ 1
unfolding compile_all queue_block search put op_flag_k jit_brk jit_jmi request_link prospector32
one_waits = refl

nothing_yet : find_block init 0x100 ≡ none
unfolding search
nothing_yet = refl

translate-Patched_example :
    (w : Worked) × (translate jump_env 3 init 0x100 ≡ done w)
    × Patched (find_block w.jit) jumped.link_queue w.patches
translate-Patched_example =
    translate-Patched jump_env 3 init jumped 0x100 (omega arith) jump_env-Yields init-Settled
      nothing_yet compiled_both
