-- ===== src/Hooks/Gdb/Listed.antt =====
-- src/gdb/hook.c: gdb's list of entries is whole in both directions.
use buxn_jit.Prelude.{
  ℕ, ◌≡◌, ◌≢◌, refl, sym, ◌∙◌, ap, Option, none, some, List, [], ◌∷◌, update, arith,
}
use buxn_jit.Hooks.Gdb.{Registry, linked_in, set_prev, register}

-- The entries from one on, with the links in both directions
unfoldable pub Chain : (ℕ → Option ℕ) → (ℕ → Option ℕ) → Option ℕ → List ℕ → Option ℕ → Type 0
Chain next prev before [] here = here ≡ none
Chain next prev before (e ∷ es) here =
    (here ≡ some e) × (prev e ≡ before) × Chain next prev (some e) es (next e)

unfoldable pub Without : ℕ → List ℕ → Type 0
Without e [] = Unit {0}
Without e (x ∷ xs) = (e ≢ x) × Without e xs

unfoldable pub Distinct : List ℕ → Type 0
Distinct [] = Unit {0}
Distinct (e ∷ es) = Without e es × Distinct es

-- gdb can walk all entries in both directions.
pub record IsListed (es : List ℕ) (r : Registry) : Type 0 where
  pub chain : Chain r.next_entry r.prev_entry none es r.first_entry
  pub distinct : Distinct es

update-other : (a : ℕ → Option ℕ) (e x : ℕ) (v : Option ℕ) → e ≢ x → update a e v x ≡ a x
update-other a e x v ne = ground arith

update-same : (a : ℕ → Option ℕ) (e : ℕ) (v : Option ℕ) → update a e v e ≡ v
update-same a e v = ground arith

Chain-next :
    (next prev : ℕ → Option ℕ) (e : ℕ) (v : Option ℕ) (before here : Option ℕ) (es : List ℕ)
    → Without e es
    → Chain next prev before es here
    → Chain (update next e v) prev before es here
unfolding Chain Without
Chain-next next prev e v before here [] w c = c
Chain-next next prev e v before here (x ∷ es) (ne, w) (h, p, c) =
    let same = update-other next e x v ne in
    (h, p, rw same (Chain-next next prev e v (some x) (next x) es w c))

Chain-prev :
    (next prev : ℕ → Option ℕ) (e : ℕ) (v : Option ℕ) (before here : Option ℕ) (es : List ℕ)
    → Without e es
    → Chain next prev before es here
    → Chain next (update prev e v) before es here
unfolding Chain Without
Chain-prev next prev e v before here [] w c = c
Chain-prev next prev e v before here (x ∷ es) (ne, w) (h, p, c) =
    (h, update-other prev e x v ne ∙ p, Chain-prev next prev e v (some x) (next x) es w c)

Chain-same :
    (next next' prev prev' : ℕ → Option ℕ) (before : Option ℕ) (f : ℕ) (es : List ℕ)
    → next' ≡ next
    → prev' ≡ prev
    → Chain next prev before es (next f)
    → Chain next' prev' before es (next' f)
Chain-same next next' prev prev' before f es n p c = rw n (rw p c)

set_prev-next : (o p : Option ℕ) (r : Registry) → (set_prev o p r).next_entry ≡ r.next_entry
set_prev-next none p r = refl
set_prev-next (some e) p r = refl

-- If gdb's list is whole, linked in both directions and without repetition, and an entry is not in
-- it, then registering the entry puts it first and keeps the list whole.
pub register-IsListed :
    (entry : ℕ) (es : List ℕ) (r : Registry)
    → Without entry es
    → IsListed es r
    → IsListed (entry ∷ es) (register entry r)
unfolding register Chain Distinct Without
register-IsListed entry [] r w l =
    let r1 = linked_in entry r in
    let e = l.chain in
    record {
      chain = (
        refl,
        ap (λ o. (set_prev o (some entry) r1).prev_entry entry) e
            ∙ update-same r.prev_entry entry none,
        ap (λ f. f entry) (set_prev-next r.first_entry (some entry) r1)
            ∙ (update-same r.next_entry entry r.first_entry ∙ e),
      );
      distinct = (tt, tt);
    }
register-IsListed entry (f ∷ es) r (ne, w) l =
    let r1 = linked_in entry r in
    let (h, p, c) = l.chain in
    let (w', d) = l.distinct in
    let prev = update (update r.prev_entry entry none) f (some entry) in
    let next = update r.next_entry entry r.first_entry in
    let same_prev = ap (λ o. (set_prev o (some entry) r1).prev_entry) h in
    let same_next = set_prev-next r.first_entry (some entry) r1 in
    let apart : f ≢ entry = λ e. ne (sym e) in
    record {
      chain = (
        refl,
        ap (λ a. a entry) same_prev
            ∙ (update-other (update r.prev_entry entry none) f entry (some entry) apart
                ∙ update-same r.prev_entry entry none),
        (
          ap (λ a. a entry) same_next ∙ (update-same r.next_entry entry r.first_entry ∙ h),
          ap (λ a. a f) same_prev ∙ update-same (update r.prev_entry entry none) f (some entry),
          Chain-same next _ prev _ (some f) f es same_next same_prev (
              Chain-prev next (update r.prev_entry entry none) f (some entry) (some f) (next f) es
                w'
                (Chain-prev next r.prev_entry entry none (some f) (next f) es w (
                  rw (update-other r.next_entry entry f r.first_entry ne) (
                    Chain-next r.next_entry r.prev_entry entry r.first_entry (some f)
                      (r.next_entry f) es w c)))),
        ),
      );
      distinct = ((ne, w), (w', d));
    }
