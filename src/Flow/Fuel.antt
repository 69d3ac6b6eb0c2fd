-- ===== src/Flow/Fuel.antt =====
-- src/jit.c: the opcodes compiled inside one another by `buxn_jit_next_opcode` are never more than
-- the addresses left, so that the fuel of its model does not matter beyond that.
use buxn_jit.Prelude.{
  ℕ, zero, suc, ◌+◌, ◌≤◌, ◌<◌, ◌^◌, ◌%◌, ◌≡◌, refl, sym, ◌∙◌, ltb, arith, Bool-cases, inl, inr,
}
use buxn_jit.Ctx.{Ctx, M, ◌>>=◌, get}
use buxn_jit.Opcodes.Stack.{
  jit_brk, jit_inc, jit_pop, jit_nip, jit_swp, jit_rot, jit_dup, jit_ovr, jit_sth,
}
use buxn_jit.Opcodes.Arith.{
  jit_equ, jit_neq, jit_gth, jit_lth, jit_add, jit_sub, jit_mul, jit_div, jit_and, jit_ora, jit_eor,
  jit_sft,
}
use buxn_jit.Opcodes.Memory.{
  jit_ldz, jit_stz, jit_ldr, jit_str, jit_lda, jit_sta, jit_dei, jit_deo, jit_lit,
}
use buxn_jit.Opcodes.Control.{Opcode, dispatch, begin_opcode, next_opcode}
use buxn_jit.Flow.Steady.{Steady-get}
use buxn_jit.Flow.Progress.{left, Within}
use buxn_jit.Flow.Forward.{Reach}
use buxn_jit.Flow.Dispatch.{begin_opcode-Advances}
use buxn_jit.Flow.Total.{reach_lem, one_opcode, next_opcode-low, next_opcode-high}
use buxn_jit.Flow.Agree.{
  AgreeAt, same, rest, rest_moved, jit_jmp-AgreeAt, jit_jcn-AgreeAt, jit_jsr-AgreeAt,
  jit_jci-AgreeAt, jit_jmi-AgreeAt, jit_jsi-AgreeAt,
}

dispatch-AgreeAt :
    (q : ℕ) (op : Opcode) (next next' : M (Unit {0}))
    → AgreeAt q next next'
    → AgreeAt ((q + 2) % 2 ^ 16) next next'
    → AgreeAt q (dispatch op next) (dispatch op next')
unfolding dispatch
dispatch-AgreeAt q Opcode.jmp next next' h h2 = jit_jmp-AgreeAt q next next' h
dispatch-AgreeAt q Opcode.jcn next next' h h2 = jit_jcn-AgreeAt q next next' h
dispatch-AgreeAt q Opcode.jsr next next' h h2 = jit_jsr-AgreeAt q next next' h
dispatch-AgreeAt q Opcode.jci next next' h h2 = jit_jci-AgreeAt q next next' h2
dispatch-AgreeAt q Opcode.jmi next next' h h2 = jit_jmi-AgreeAt q next next' h2
dispatch-AgreeAt q Opcode.jsi next next' h h2 = jit_jsi-AgreeAt q next next' h2
dispatch-AgreeAt q Opcode.brk next next' h h2 = same q jit_brk
dispatch-AgreeAt q Opcode.inc next next' h h2 = same q jit_inc
dispatch-AgreeAt q Opcode.pop next next' h h2 = same q jit_pop
dispatch-AgreeAt q Opcode.nip next next' h h2 = same q jit_nip
dispatch-AgreeAt q Opcode.swp next next' h h2 = same q jit_swp
dispatch-AgreeAt q Opcode.rot next next' h h2 = same q jit_rot
dispatch-AgreeAt q Opcode.dup next next' h h2 = same q jit_dup
dispatch-AgreeAt q Opcode.ovr next next' h h2 = same q jit_ovr
dispatch-AgreeAt q Opcode.equ next next' h h2 = same q jit_equ
dispatch-AgreeAt q Opcode.neq next next' h h2 = same q jit_neq
dispatch-AgreeAt q Opcode.gth next next' h h2 = same q jit_gth
dispatch-AgreeAt q Opcode.lth next next' h h2 = same q jit_lth
dispatch-AgreeAt q Opcode.sth next next' h h2 = same q jit_sth
dispatch-AgreeAt q Opcode.ldz next next' h h2 = same q jit_ldz
dispatch-AgreeAt q Opcode.stz next next' h h2 = same q jit_stz
dispatch-AgreeAt q Opcode.ldr next next' h h2 = same q jit_ldr
dispatch-AgreeAt q Opcode.str next next' h h2 = same q jit_str
dispatch-AgreeAt q Opcode.lda next next' h h2 = same q jit_lda
dispatch-AgreeAt q Opcode.sta next next' h h2 = same q jit_sta
dispatch-AgreeAt q Opcode.dei next next' h h2 = same q jit_dei
dispatch-AgreeAt q Opcode.deo next next' h h2 = same q jit_deo
dispatch-AgreeAt q Opcode.add next next' h h2 = same q jit_add
dispatch-AgreeAt q Opcode.sub next next' h h2 = same q jit_sub
dispatch-AgreeAt q Opcode.mul next next' h h2 = same q jit_mul
dispatch-AgreeAt q Opcode.div next next' h h2 = same q jit_div
dispatch-AgreeAt q Opcode.and next next' h h2 = same q jit_and
dispatch-AgreeAt q Opcode.ora next next' h h2 = same q jit_ora
dispatch-AgreeAt q Opcode.eor next next' h h2 = same q jit_eor
dispatch-AgreeAt q Opcode.sft next next' h h2 = same q jit_sft
dispatch-AgreeAt q Opcode.lit next next' h h2 = same q jit_lit

one_opcode-fuel :
    (decode : ℕ → Opcode) (next next' : M (Unit {0})) (ctx : Ctx)
    → ((q : ℕ) → Within (left ctx.pc) q → AgreeAt q next next')
    → Reach (left ctx.pc) ((ctx.pc + 1) % 2 ^ 16)
    → one_opcode decode next ctx ≡ one_opcode decode next' ctx
one_opcode-fuel decode next next' ctx h r =
    let q = (ctx.pc + 1) % 2 ^ 16 in
    (rest_moved ctx.pc 1 begin_opcode (λ _. get >>= λ c. dispatch (decode c.current_opcode) next)
        (λ _. get >>= λ c. dispatch (decode c.current_opcode) next') begin_opcode-Advances
        λ _.
          rest q get (λ c. dispatch (decode c.current_opcode) next)
            (λ c. dispatch (decode c.current_opcode) next') Steady-get
            λ c.
              dispatch-AgreeAt q (decode c.current_opcode) next next' (h q r.none_read)
                (h _ r.short_read)).at
      ctx refl

-- Fuel beyond the addresses that are left makes no difference, and what stands for a lack of fuel
-- is never reached.
pub next_opcode-fuel :
    (decode : ℕ → Opcode) (bail bail' : M (Unit {0})) (fuel fuel' : ℕ) (ctx : Ctx)
    → ctx.pc < 2 ^ 16
    → left ctx.pc < fuel
    → left ctx.pc < fuel'
    → next_opcode decode bail fuel ctx ≡ next_opcode decode bail' fuel' ctx
next_opcode-fuel decode bail bail' zero fuel' ctx short h h' = absurd (omega arith)
next_opcode-fuel decode bail bail' (suc fuel) zero ctx short h h' = absurd (omega arith)
next_opcode-fuel decode bail bail' (suc fuel) (suc fuel') ctx short h h' =
    elim (Bool-cases (ltb ctx.pc 256)) [
      | inl below ↦
          let low : ctx.pc < 256 = ground arith in
          next_opcode-low decode bail fuel ctx low
          ∙ sym (next_opcode-low decode bail' fuel' ctx low)
      | inr above ↦
          let high : 256 ≤ ctx.pc = ground arith in
          next_opcode-high decode bail fuel ctx high
          ∙ (one_opcode-fuel decode (next_opcode decode bail fuel) (next_opcode decode bail' fuel')
                ctx
                (λ q w. record {
                  at = λ c e.
                      let room = w.room in
                      next_opcode-fuel decode bail bail' fuel fuel' c (rw e (w.short))
                        (rw e (omega (arith, room))) (rw e (omega (arith, room)));
                })
                (reach_lem ctx.pc high short)
              ∙ sym (next_opcode-high decode bail' fuel' ctx high))
    ]
