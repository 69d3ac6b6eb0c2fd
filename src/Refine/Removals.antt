-- ===== src/Refine/Removals.antt =====
-- POP and NIP against the instruction set.
use buxn_jit.Prelude.{
  ℕ, ◌<◌, ◌≡◌, refl, ap, ◌∙◌, Bool, true, false, List, [], ◌∷◌, ◌++◌, arith, length,
}
use buxn_jit.Ctx.{Ctx}
use buxn_jit.Regs.{op_flag_k, op_flag_r}
use buxn_jit.Cache.Pop.{discard}
use buxn_jit.Micro.Stack.{width, size, push_operand}
use buxn_jit.Opcodes.Stack.{track_discard, jit_pop, jit_nip}
use buxn_jit.Opcodes.Control.{pop, nip}
use buxn_jit.Machine.{Machine}
use buxn_jit.Refine.Shape.{Shaped, Shaped-trans, Shaped-caches}
use buxn_jit.Refine.Ensures.{Ensures, Ensures-bind, Ensures-mono}
use buxn_jit.Refine.Push.{item_bytes}
use buxn_jit.Refine.Alloc.{hold, nothing_held}
use buxn_jit.Refine.Operand.{Inv-tracked}
use buxn_jit.Refine.Side.{Ready, Sides, Quiet, Quiet-trans}
use buxn_jit.Refine.Dropped.{Gone}
use buxn_jit.Refine.Discard.{discard-Gone}
use buxn_jit.Refine.Session.{
  Kept, Own-Kept, Session, Performs, pop_step, push_last, own_bound, length-on,
}
use buxn_jit.Refine.Moves.{items-one, items-two}

module _ (m : Machine) (s0 : m.State) where
  -- What POP leaves
  pub record Removed (flag_r two : Bool) (held : ℕ → ℕ) (ctx0 ctx : Ctx) (l o : List ℕ) (ctx' : Ctx)
      : Type 0 where
    pub v : ℕ
    pub rest : List ℕ
    pub item : l ≡ item_bytes two v ++ rest
    pub fits : v < width two
    pub session : Session m s0 flag_r held ctx0 ctx' rest o
    pub kept : Kept m s0 held ctx ctx'
    pub shape : (t : Bool) → Shaped flag_r t ctx ctx'

  Gone-Removed :
      (flag_r two : Bool) (held : ℕ → ℕ) (ctx0 ctx : Ctx) (n : ℕ) (l o : List ℕ) (ctx' : Ctx)
      → Session m s0 flag_r held ctx0 ctx l o
      → Gone m s0 flag_r two held (track_discard flag_r n ctx) l o ctx'
      → Removed flag_r two held ctx0 ctx l o ctx'
  Gone-Removed true two held ctx0 ctx n l o ctx' s g =
      let q : Quiet m s0 ctx ctx' = record {
        mode = record {
          pc = g.quiet.mode.pc;
          opcode = g.quiet.mode.opcode;
          shadow = g.quiet.mode.shadow;
          wsp_reg = g.quiet.mode.wsp_reg;
          rsp_reg = g.quiet.mode.rsp_reg;
        };
        others = g.quiet.others;
      } in
      record {
        v = g.v;
        rest = g.rest;
        item = g.item;
        fits = g.fits;
        session = record {
          inv = g.inv;
          quiet = Quiet-trans m s0 ctx0 ctx ctx' s.quiet q;
          side = ap op_flag_r q.mode.opcode ∙ s.side;
        };
        kept = λ x lo hi used. g.kept x lo hi;
        shape = λ t.
            Shaped-trans true t ctx (track_discard true n ctx) ctx'
              (Shaped-caches true t ctx (track_discard true n ctx) refl refl) (g.shape t);
      }
  Gone-Removed false two held ctx0 ctx n l o ctx' s g =
      let q : Quiet m s0 ctx ctx' = record {
        mode = record {
          pc = g.quiet.mode.pc;
          opcode = g.quiet.mode.opcode;
          shadow = g.quiet.mode.shadow;
          wsp_reg = g.quiet.mode.wsp_reg;
          rsp_reg = g.quiet.mode.rsp_reg;
        };
        others = g.quiet.others;
      } in
      record {
        v = g.v;
        rest = g.rest;
        item = g.item;
        fits = g.fits;
        session = record {
          inv = g.inv;
          quiet = Quiet-trans m s0 ctx0 ctx ctx' s.quiet q;
          side = ap op_flag_r q.mode.opcode ∙ s.side;
        };
        kept = λ x lo hi used. g.kept x lo hi;
        shape = λ t.
            Shaped-trans false t ctx (track_discard false n ctx) ctx'
              (Shaped-caches false t ctx (track_discard false n ctx) refl refl) (g.shape t);
      }

  tracked-Sides :
      (flag_r : Bool) (held : ℕ → ℕ) (ctx : Ctx) (n : ℕ) (l o : List ℕ)
      → Sides m s0 flag_r held ctx l o
      → Sides m s0 flag_r held (track_discard flag_r n ctx) l o
  tracked-Sides true held ctx n l o v = Inv-tracked m s0 ctx.wst ctx.rst ctx.wsp _ held ctx o l v
  tracked-Sides false held ctx n l o v = Inv-tracked m s0 ctx.wst ctx.rst _ ctx.rsp held ctx l o v

  tracked-Ready :
      (flag_r two : Bool) (ss : List Bool) (ctx : Ctx) (n : ℕ) (l : List ℕ)
      → Ready flag_r two ss ctx l
      → Ready flag_r two ss (track_discard flag_r n ctx) l
  tracked-Ready true two ss ctx n l r = record {
    side = r.side;
    mode = r.mode;
    shadow = r.shadow;
    wsp_reg = r.wsp_reg;
    rsp_reg = r.rsp_reg;
    sizes = r.sizes;
    regs = r.regs;
    there = r.there;
  }
  tracked-Ready false two ss ctx n l r = record {
    side = r.side;
    mode = r.mode;
    shadow = r.shadow;
    wsp_reg = r.wsp_reg;
    rsp_reg = r.rsp_reg;
    sizes = r.sizes;
    regs = r.regs;
    there = r.there;
  }

  remove_lem :
      (flag_r two : Bool) (held : ℕ → ℕ) (ss : List Bool) (ctx0 ctx : Ctx) (l o : List ℕ)
      → Session m s0 flag_r held ctx0 ctx l o
      → Ready flag_r two (two ∷ ss) ctx l
      → op_flag_k ctx.current_opcode ≡ false
      → Ensures (λ _. Removed flag_r two held ctx0 ctx l o) (jit_pop ctx)
  unfolding jit_pop
  remove_lem flag_r two held ss ctx0 ctx l o s r plain =
      rw (plain, r.side, r.mode)
        (Ensures-mono _ _ (discard flag_r two (track_discard flag_r (size two) ctx))
          (discard-Gone m s0 flag_r two held ss (track_discard flag_r (size two) ctx) l o
            (tracked-Sides flag_r held ctx (size two) l o s.inv)
            (tracked-Ready flag_r two (two ∷ ss) ctx (size two) l r))
          λ _ ctx' g. Gone-Removed flag_r two held ctx0 ctx (size two) l o ctx' s g)

module _ (m : Machine) (s0 : m.State) (flag_r two : Bool) (ctx : Ctx) (l o : List ℕ)
    (start : Session m s0 flag_r nothing_held ctx ctx l o)
    (plain : op_flag_k ctx.current_opcode ≡ false) where
  pub jit_pop-Performs :
      Ready flag_r two (two ∷ []) ctx l
      → Ensures (λ _. Performs m s0 pop flag_r two ctx l o) (jit_pop ctx)
  jit_pop-Performs ready =
      Ensures-mono _ _ (jit_pop ctx)
        (remove_lem m s0 flag_r two nothing_held [] ctx ctx l o start ready plain)
        λ _ ctx1 g. record {
          values = g.v ∷ [];
          short = two;
          results = [];
          rest = g.rest;
          held = nothing_held;
          bounded = (g.fits, tt);
          before = g.item ∙ items-one two g.v g.rest;
          spec = refl;
          inv = g.session.inv;
          quiet = g.session.quiet;
          shape = g.shape two;
        }

  pub jit_nip-Performs :
      Ready flag_r two (two ∷ two ∷ []) ctx l
      → Ensures (λ _. Performs m s0 nip flag_r two ctx l o) (jit_nip ctx)
  unfolding jit_nip
  jit_nip-Performs ready =
      pop_step m s0 flag_r two nothing_held (two ∷ []) ctx ctx l o _ _ start ready λ b ctx1 p.
        Ensures-bind jit_pop _ ctx1 _ _
          (remove_lem m s0 flag_r two _ [] ctx ctx1 p.rest o p.session p.ready
            (ap op_flag_k p.session.quiet.mode.opcode ∙ plain))
          λ _ ctx2 g.
            Ensures-mono _ _ (push_operand b ctx2)
              (push_last m s0 flag_r two _ ctx ctx2 g.rest o b p.v g.session
                (Own-Kept m s0 g.kept p.own) (ground arith)
                (omega (
                  arith,
                  own_bound m s0 flag_r nothing_held ctx ctx l o start,
                  ap length p.item,
                  length-on two p.v p.rest,
                  ap length g.item,
                  length-on two g.v g.rest,
                )))
              λ _ ctx3 t. record {
                values = p.v ∷ g.v ∷ [];
                short = two;
                results = p.v ∷ [];
                rest = g.rest;
                held = hold nothing_held b.reg;
                bounded = (p.own.fits, (g.fits, tt));
                before =
                    p.item
                    ∙ ap (λ t. item_bytes two p.v ++ t) g.item
                    ∙ items-two two p.v g.v g.rest;
                spec = refl;
                inv = rw (items-one two p.v g.rest) at t.session.inv;
                quiet = t.session.quiet;
                shape =
                    Shaped-trans flag_r two ctx ctx1 ctx3 (p.shape two)
                      (Shaped-trans flag_r two ctx1 ctx2 ctx3 (g.shape two) t.shape);
              }
