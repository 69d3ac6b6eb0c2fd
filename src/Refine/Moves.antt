-- ===== src/Refine/Moves.antt =====
-- SWP, DUP, OVR and ROT against the instruction set.
use buxn_jit.Prelude.{
  ℕ, ◌+◌, ◌≤◌, ◌≡◌, refl, ap, ◌∙◌, Bool, true, false, List, [], ◌∷◌, ◌++◌, arith, length,
}
use buxn_jit.Ctx.{Ctx}
use buxn_jit.Micro.Stack.{size, push_operand}
use buxn_jit.Opcodes.Stack.{jit_swp, jit_dup, jit_ovr, jit_rot}
use buxn_jit.Opcodes.Control.{swp, dup, ovr, rot}
use buxn_jit.Machine.{Machine}
use buxn_jit.Refine.Shape.{Shaped-trans}
use buxn_jit.Refine.Ensures.{Ensures, Ensures-mono}
use buxn_jit.Refine.Push.{item_bytes}
use buxn_jit.Refine.Alloc.{hold, nothing_held}
use buxn_jit.Refine.Side.{Ready}
use buxn_jit.Refine.Isa.{items}
use buxn_jit.Refine.Session.{
  length-on, Session, own_bound, Own-Kept, Own-hold, pop_step, pop_two, push_step, push_last,
  Performs,
}

-- Two and three items on top of a stack
pub items-two :
    (two : Bool) (a b : ℕ) (l : List ℕ)
    → item_bytes two a ++ (item_bytes two b ++ l) ≡ items two (a ∷ b ∷ []) ++ l
items-two true a b l = refl
items-two false a b l = refl

pub items-one : (two : Bool) (a : ℕ) (l : List ℕ) → item_bytes two a ++ l ≡ items two (a ∷ []) ++ l
items-one true a l = refl
items-one false a l = refl

pub items-three :
    (two : Bool) (a b c : ℕ) (l : List ℕ)
    → item_bytes two a ++ (item_bytes two b ++ (item_bytes two c ++ l))
      ≡ items two (a ∷ b ∷ c ∷ []) ++ l
items-three true a b c l = refl
items-three false a b c l = refl

pub length-item_two :
    (two : Bool) (a b : ℕ) (l : List ℕ) {t : List ℕ}
    → t ≡ item_bytes two a ++ (item_bytes two b ++ l)
    → length t ≡ size two + (size two + length l)
length-item_two two a b l e =
    omega (arith, ap length e, length-on two a (item_bytes two b ++ l), length-on two b l)

module _ (m : Machine) (s0 : m.State) (flag_r two : Bool) (ctx : Ctx) (l o : List ℕ)
    (start : Session m s0 flag_r nothing_held ctx ctx l o) where
  bound : length l ≤ 256
  bound = own_bound m s0 flag_r nothing_held ctx ctx l o start

  pub jit_dup-Performs :
      Ready flag_r two (two ∷ []) ctx l
      → size two + length l ≤ 256
      → Ensures (λ _. Performs m s0 dup flag_r two ctx l o) (jit_dup ctx)
  unfolding jit_dup
  jit_dup-Performs ready room =
      pop_step m s0 flag_r two nothing_held [] ctx ctx l o _ _ start ready λ a ctx1 p.
        let room1 : size two + length p.rest ≤ 256 =
          omega (arith, ap length p.item, length-on two p.v p.rest) in
        push_step m s0 flag_r two _ ctx ctx1 p.rest o a p.v _ _ p.session p.own (ground arith) room1
          λ ctx2 q.
            Ensures-mono _ _ (push_operand a ctx2)
              (push_last m s0 flag_r two _ ctx ctx2 _ o a p.v q.session (Own-Kept m s0 q.kept p.own)
                (ground arith) (omega (arith, ap length p.item)))
              λ _ ctx3 t. record {
                values = p.v ∷ [];
                short = two;
                results = p.v ∷ p.v ∷ [];
                rest = p.rest;
                held = hold nothing_held a.reg;
                bounded = (p.own.fits, tt);
                before = p.item ∙ items-one two p.v p.rest;
                spec = refl;
                inv = rw (items-two two p.v p.v p.rest) at t.session.inv;
                quiet = t.session.quiet;
                shape =
                    Shaped-trans flag_r two ctx ctx1 ctx3 (p.shape two)
                      (Shaped-trans flag_r two ctx1 ctx2 ctx3 q.shape t.shape);
              }

  pub jit_swp-Performs :
      Ready flag_r two (two ∷ two ∷ []) ctx l
      → Ensures (λ _. Performs m s0 swp flag_r two ctx l o) (jit_swp ctx)
  unfolding jit_swp
  jit_swp-Performs ready = pop_two m s0 flag_r two [] ctx l o _ _ start ready λ b a ctx1 p.
      let full : size two + (size two + length p.rest) ≤ 256 =
        omega (arith, bound, length-item_two two p.vb p.va p.rest p.item) in
      push_step m s0 flag_r two _ ctx ctx1 p.rest o b p.vb _ _ p.session p.own_b (ground arith)
        (omega arith)
        λ ctx2 q.
          Ensures-mono _ _ (push_operand a ctx2)
            (push_last m s0 flag_r two _ ctx ctx2 _ o a p.va q.session
              (Own-Kept m s0 q.kept p.own_a) (ground arith)
              (omega (arith, length-on two p.vb p.rest)))
            λ _ ctx3 t. record {
              values = p.vb ∷ p.va ∷ [];
              short = two;
              results = p.va ∷ p.vb ∷ [];
              rest = p.rest;
              held = hold (hold nothing_held b.reg) a.reg;
              bounded = (p.own_b.fits, (p.own_a.fits, tt));
              before = p.item ∙ items-two two p.vb p.va p.rest;
              spec = refl;
              inv = rw (items-two two p.va p.vb p.rest) at t.session.inv;
              quiet = t.session.quiet;
              shape =
                  Shaped-trans flag_r two ctx ctx1 ctx3 (p.shape two)
                    (Shaped-trans flag_r two ctx1 ctx2 ctx3 q.shape t.shape);
            }

  pub jit_ovr-Performs :
      Ready flag_r two (two ∷ two ∷ []) ctx l
      → size two + length l ≤ 256
      → Ensures (λ _. Performs m s0 ovr flag_r two ctx l o) (jit_ovr ctx)
  unfolding jit_ovr
  jit_ovr-Performs ready room = pop_two m s0 flag_r two [] ctx l o _ _ start ready λ b a ctx1 p.
      let full : size two + (size two + (size two + length p.rest)) ≤ 256 =
        omega (arith, room, length-item_two two p.vb p.va p.rest p.item) in
      push_step m s0 flag_r two _ ctx ctx1 p.rest o a p.va _ _ p.session p.own_a (ground arith)
        (omega arith)
        λ ctx2 q.
          push_step m s0 flag_r two _ ctx ctx2 _ o b p.vb _ _ q.session
            (Own-Kept m s0 q.kept p.own_b) (ground arith) (omega (arith, length-on two p.va p.rest))
            λ ctx3 q'.
              Ensures-mono _ _ (push_operand a ctx3)
                (push_last m s0 flag_r two _ ctx ctx3 _ o a p.va q'.session
                  (Own-Kept m s0 q'.kept (Own-Kept m s0 {ctx' = ctx2} q.kept p.own_a))
                  (ground arith)
                  (omega (
                    arith,
                    length-on two p.va p.rest,
                    length-on two p.vb (item_bytes two p.va ++ p.rest),
                  )))
                λ _ ctx4 t. record {
                  values = p.vb ∷ p.va ∷ [];
                  short = two;
                  results = p.va ∷ p.vb ∷ p.va ∷ [];
                  rest = p.rest;
                  held = hold (hold nothing_held b.reg) a.reg;
                  bounded = (p.own_b.fits, (p.own_a.fits, tt));
                  before = p.item ∙ items-two two p.vb p.va p.rest;
                  spec = refl;
                  inv = rw (items-three two p.va p.vb p.va p.rest) at t.session.inv;
                  quiet = t.session.quiet;
                  shape = Shaped-trans flag_r two ctx ctx1 ctx4 (p.shape two) (
                      Shaped-trans flag_r two ctx1 ctx2 ctx4 q.shape
                        (Shaped-trans flag_r two ctx2 ctx3 ctx4 q'.shape t.shape));
                }

  pub jit_rot-Performs :
      Ready flag_r two (two ∷ two ∷ two ∷ []) ctx l
      → Ensures (λ _. Performs m s0 rot flag_r two ctx l o) (jit_rot ctx)
  unfolding jit_rot
  jit_rot-Performs ready = pop_two m s0 flag_r two (two ∷ []) ctx l o _ _ start ready λ c b ctx1 p.
      pop_step m s0 flag_r two _ [] ctx ctx1 p.rest o _ _ p.session p.ready λ a ctx2 p'.
        let own_b = Own-hold m s0 a.reg (Own-Kept m s0 {ctx' = ctx2} p'.kept p.own_a) in
        let own_c = Own-hold m s0 a.reg (Own-Kept m s0 {ctx' = ctx2} p'.kept p.own_b) in
        let full : size two + (size two + (size two + length p'.rest)) ≤ 256 = omega (
          arith,
          bound,
          length-item_two two p.vb p.va p.rest p.item,
          ap length p'.item,
          length-on two p'.v p'.rest,
        ) in
        push_step m s0 flag_r two _ ctx ctx2 p'.rest o b p.va _ _ p'.session own_b (ground arith)
          (omega arith)
          λ ctx3 q.
            push_step m s0 flag_r two _ ctx ctx3 _ o c p.vb _ _ q.session
              (Own-Kept m s0 q.kept own_c) (ground arith)
              (omega (arith, length-on two p.va p'.rest))
              λ ctx4 q'.
                Ensures-mono _ _ (push_operand a ctx4)
                  (push_last m s0 flag_r two _ ctx ctx4 _ o a p'.v q'.session
                    (Own-Kept m s0 q'.kept (Own-Kept m s0 {ctx' = ctx3} q.kept p'.own))
                    (ground arith)
                    (omega (
                      arith,
                      length-on two p.va p'.rest,
                      length-on two p.vb (item_bytes two p.va ++ p'.rest),
                    )))
                  λ _ ctx5 t. record {
                    values = p.vb ∷ p.va ∷ p'.v ∷ [];
                    short = two;
                    results = p'.v ∷ p.vb ∷ p.va ∷ [];
                    rest = p'.rest;
                    held = hold (hold (hold nothing_held c.reg) b.reg) a.reg;
                    bounded = (p.own_b.fits, (p.own_a.fits, (p'.own.fits, tt)));
                    before =
                        p.item
                        ∙ ap (λ t. item_bytes two p.vb ++ (item_bytes two p.va ++ t)) p'.item
                        ∙ items-three two p.vb p.va p'.v p'.rest;
                    spec = refl;
                    inv = rw (items-three two p'.v p.vb p.va p'.rest) at t.session.inv;
                    quiet = t.session.quiet;
                    shape = Shaped-trans flag_r two ctx ctx1 ctx5 (p.shape two) (
                        Shaped-trans flag_r two ctx1 ctx2 ctx5 (p'.shape two) (
                          Shaped-trans flag_r two ctx2 ctx3 ctx5 q.shape
                            (Shaped-trans flag_r two ctx3 ctx4 ctx5 q'.shape t.shape)));
                  }
