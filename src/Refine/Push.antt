-- ===== src/Refine/Push.antt =====
-- The effect of the code that `buxn_jit_do_push` emits, on the registers and on both stacks.
use buxn_jit.Prelude.{
  ℕ, ◌+◌, ◌/◌, ◌%◌, ◌^◌, ◌<◌, ◌≤◌, ◌≡◌, ◌≢◌, refl, ◌∙◌, Bool, true, false, List, [], ◌∷◌, ◌++◌,
  ◌&&◌, arith, length, ◌==◌, if◌then◌else◌,
}
use buxn_jit.Lir.{Op2, Field, same_field, r_mem_base, r_tmp}
use buxn_jit.Ctx.{saved_ptr_reg, stack_field}
use buxn_jit.Machine.{Machine, binary}
use buxn_jit.Refine.Below.{Below, Below-push}
use buxn_jit.Refine.Bytes.{
  PointsAt, store_byte, reg-store_byte, cell-store_byte, store_tmp, reg-store_tmp, base-store_tmp,
  cell-store_tmp,
}

-- The bytes of an item, the top one first
abbrev pub item_bytes : Bool → ℕ → List ℕ
item_bytes true v = v % 256 ∷ v / 2 ^ 8 % 256 ∷ []
item_bytes false v = v % 256 ∷ []

pub length-item_bytes : (b : Bool) (v : ℕ) → length (item_bytes b v) ≡ length (item_bytes b 0)
length-item_bytes true v = refl
length-item_bytes false v = refl

pub saved_ptr-gt : (flag_r : Bool) → r_tmp < saved_ptr_reg flag_r
saved_ptr-gt true = omega arith
saved_ptr-gt false = omega arith

pub same_field-stack : (flag_r : Bool) → same_field (stack_field flag_r) (stack_field flag_r) ≡ true
same_field-stack true = refl
same_field-stack false = refl

module _ (m : Machine) where
  open m use {State, reg_of, cell}

  -- `s'` is `s` with an item pushed on one of the two stacks in memory.
  pub record Pushed (flag_r : Bool) (bytes : List ℕ) (s s' : State) : Type 0 where
    pub regs : (x : ℕ) → r_tmp < x → saved_ptr_reg flag_r ≢ x → reg_of s' x ≡ reg_of s x
    pub base : reg_of s' r_mem_base ≡ reg_of s r_mem_base
    pub others :
        (g : Field) (j : ℕ) → same_field (stack_field flag_r) g ≡ false → cell s' g j ≡ cell s g j
    pub below :
        (l : List ℕ)
        → length bytes + length l ≤ 256
        → Below (cell s (stack_field flag_r)) (reg_of s (saved_ptr_reg flag_r) % 256) l
        → Below (cell s' (stack_field flag_r)) (reg_of s' (saved_ptr_reg flag_r) % 256) (bytes ++ l)

  -- A byte `v` written at the pointer, and the pointer moved on
  byte-Pushed :
      (flag_r : Bool) (v : ℕ) (s s' : State)
      → ((x : ℕ) → r_tmp < x → saved_ptr_reg flag_r ≢ x → reg_of s' x ≡ reg_of s x)
      → reg_of s' r_mem_base ≡ reg_of s r_mem_base
      → reg_of s' (saved_ptr_reg flag_r) ≡ (reg_of s (saved_ptr_reg flag_r) + 1) % 2 ^ 64
      → ((g : Field) (j : ℕ)
          → cell s' g j ≡ (
              if same_field (stack_field flag_r) g && (reg_of s (saved_ptr_reg flag_r) % 256 == j)
              then v
              else cell s g j))
      → Pushed flag_r (v ∷ []) s s'
  byte-Pushed flag_r v s s' regs base pointer cells =
      let sp = saved_ptr_reg flag_r in
      let f = stack_field flag_r in
      let next : reg_of s' sp % 256 ≡ (reg_of s sp % 256 + 1) % 256 = omega (arith, pointer) in
      record {
        regs = regs;
        base = base;
        others = λ g j hg. cells g j ∙ rw hg;
        below = λ l hl h. rw next (
            Below-push (cell s f) (cell s' f) (reg_of s sp % 256) v l
              (λ j. cells f j ∙ rw (same_field-stack flag_r)) (omega arith) (omega arith) h);
      }

  pub Pushed-two :
      (flag_r : Bool) (v w : ℕ) (s s' s'' : State)
      → Pushed flag_r (v ∷ []) s s'
      → Pushed flag_r (w ∷ []) s' s''
      → Pushed flag_r (w ∷ v ∷ []) s s''
  Pushed-two flag_r v w s s' s'' p q = record {
    regs = λ x hx hs. q.regs x hx hs ∙ p.regs x hx hs;
    base = q.base ∙ p.base;
    others = λ g j hg. q.others g j hg ∙ p.others g j hg;
    below = λ l hl h. q.below (v ∷ l) (omega arith) (p.below l (omega arith) h);
  }

  pub store_byte-Pushed :
      (flag_r : Bool) (s : State) (r : ℕ)
      → PointsAt m s (stack_field flag_r)
      → r_tmp < r
      → Pushed flag_r (reg_of s r % 256 ∷ []) s (store_byte m s (saved_ptr_reg flag_r) r)
  store_byte-Pushed flag_r s r b hr =
      let sp = saved_ptr_reg flag_r in
      let gt = saved_ptr-gt flag_r in
      let reg_eq = λ (x : ℕ). reg-store_byte m s sp r x (omega arith) in
      byte-Pushed flag_r (reg_of s r % 256) s (store_byte m s sp r)
        (λ x hx hs. ground (arith, reg_eq x)) (ground (arith, reg_eq r_mem_base))
        (ground (arith, reg_eq sp)) (λ g j. cell-store_byte m s flag_r sp r g j b (omega arith))

  pub store_tmp-Pushed :
      (flag_r : Bool) (s : State) (o : Op2) (src k : ℕ)
      → PointsAt m s (stack_field flag_r)
      → r_tmp < src
      → Pushed flag_r
          (binary o (reg_of s src) k % 256 ∷ [])
          s
          (store_tmp m s (saved_ptr_reg flag_r) o src k)
  store_tmp-Pushed flag_r s o src k b hr =
      let sp = saved_ptr_reg flag_r in
      let gt = saved_ptr-gt flag_r in
      let reg_eq = λ (x : ℕ) (h : r_tmp < x). reg-store_tmp m s sp o src k x gt h in
      byte-Pushed flag_r (binary o (reg_of s src) k % 256) s (store_tmp m s sp o src k)
        (λ x hx hs. ground (arith, reg_eq x hx)) (base-store_tmp m s sp o src k gt)
        (ground (arith, reg_eq sp gt)) (λ g j. cell-store_tmp m s flag_r sp o src k g j b hr)
