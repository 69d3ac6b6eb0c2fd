-- ===== src/Refine/Stash.antt =====
-- STH against the instruction set: an item goes from the opcode's stack to the other one.
use buxn_jit.Prelude.{
  ℕ, ◌+◌, ◌<◌, ◌≤◌, ◌≡◌, Bool, true, false, not, List, [], ◌∷◌, ◌++◌, arith, length,
}
use buxn_jit.Ctx.{Ctx}
use buxn_jit.Micro.Stack.{width, size, push_ex}
use buxn_jit.Opcodes.Stack.{jit_sth}
use buxn_jit.Machine.{Machine}
use buxn_jit.Refine.Ensures.{Ensures, Ensures-mono}
use buxn_jit.Refine.Push.{item_bytes}
use buxn_jit.Refine.Item.{at}
use buxn_jit.Refine.Inv.{Frame-refl}
use buxn_jit.Refine.Alloc.{hold, nothing_held}
use buxn_jit.Refine.Side.{Ready, Sides, Quiet, Quiet-trans, Frame-Quiet, push_ex-Put}
use buxn_jit.Refine.Session.{length-on, pop_step}

module _ (m : Machine) (s0 : m.State) where
  open m use {reg_of}

  -- The top item of one stack is on top of the other.
  pub record Stashed (flag_r two : Bool) (ctx : Ctx) (l o : List ℕ) (ctx' : Ctx) : Type 0 where
    pub v : ℕ
    pub rest : List ℕ
    pub held : ℕ → ℕ
    pub fits : v < width two
    pub before : l ≡ item_bytes two v ++ rest
    pub inv : Sides m s0 flag_r held ctx' rest (item_bytes two v ++ o)
    pub quiet : Quiet m s0 ctx ctx'

  Sides-swap :
      (flag_r : Bool) (held : ℕ → ℕ) (ctx : Ctx) (l o : List ℕ)
      → Sides m s0 flag_r held ctx l o
      → Sides m s0 (not flag_r) held ctx o l
  Sides-swap true held ctx l o v = v
  Sides-swap false held ctx l o v = v

  Sides-swapped :
      (flag_r : Bool) (held : ℕ → ℕ) (ctx : Ctx) (l o : List ℕ)
      → Sides m s0 (not flag_r) held ctx o l
      → Sides m s0 flag_r held ctx l o
  Sides-swapped true held ctx l o v = v
  Sides-swapped false held ctx l o v = v

  -- From a context that satisfies the invariant, outside the keep mode, with no operand held, the
  -- operand ready in a register or in memory and room for it on the other stack, STH fails no
  -- assertion and moves the top item, in the size of the opcode, from the opcode's stack to the
  -- other one. The rest of the VM stays.
  pub jit_sth-Stashed :
      (flag_r two : Bool) (ctx : Ctx) (l o : List ℕ)
      → Sides m s0 flag_r nothing_held ctx l o
      → Ready flag_r two (two ∷ []) ctx l
      → size two + length o ≤ 256
      → Ensures (λ _. Stashed flag_r two ctx l o) (jit_sth ctx)
  unfolding jit_sth
  jit_sth-Stashed flag_r two ctx l o v ready room =
      pop_step m s0 flag_r two nothing_held [] ctx ctx l o _ _
        (record {
          inv = v;
          quiet = Frame-Quiet m s0 ctx ctx (Frame-refl m s0 ctx);
          side = ready.side;
        })
        ready
        λ a ctx1 p.
          let value = reg_of (at m s0 ctx1) a.reg in
          let item : item_bytes a.is_short value ≡ item_bytes two p.v =
            rw (p.own.is_short, p.own.value) in
          rw p.session.side (
            Ensures-mono _ _ (push_ex a (not flag_r) ctx1)
              (push_ex-Put m s0 (not flag_r) (hold nothing_held a.reg) ctx1 a o p.rest
                (Sides-swap flag_r _ ctx1 p.rest o p.session.inv)
                (record {
                  pushable = (p.own.lo, p.own.hi, ground arith);
                  used = p.own.used;
                  fits = rw (p.own.is_short, p.own.value) p.own.fits;
                })
                (rw item (omega (arith, length-on two p.v o))))
              λ _ ctx2 t. record {
                v = p.v;
                rest = p.rest;
                held = hold nothing_held a.reg;
                fits = p.own.fits;
                before = p.item;
                inv = Sides-swapped flag_r _ ctx2 p.rest _ (rw item at t.inv);
                quiet = Quiet-trans m s0 ctx ctx1 ctx2 p.session.quiet t.quiet;
              })
