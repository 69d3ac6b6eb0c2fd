-- ===== src/Refine/Below.antt =====
-- A stack in memory: 256 bytes used round and round, with a pointer to the next free one.
use buxn_jit.Prelude.{
  ℕ, ◌+◌, ◌-◌, ◌%◌, ◌<◌, ◌≡◌, ◌≢◌, ◌∙◌, List, [], ◌∷◌, arith, length, ◌==◌, if◌then◌else◌,
}

-- The items of the list, the top first, stand below the pointer.
abbrev pub Below : (ℕ → ℕ) → ℕ → List ℕ → Type 0
Below cells p [] = Unit {0}
Below cells p (b ∷ l) = (cells ((p + 255) % 256) ≡ b) × Below cells ((p + 255) % 256) l

-- Bytes other than the one at `q` keep a stack that does not reach round to `q`.
pub Below-kept :
    (c d : ℕ → ℕ) (q k p : ℕ) (l : List ℕ)
    → ((j : ℕ) → j ≢ q → d j ≡ c j)
    → q < 256
    → p ≡ (q + 256 - k) % 256
    → k + length l < 256
    → Below c p l
    → Below d p l
Below-kept c d q k p [] same hq hp hk h = tt
Below-kept c d q k p (b ∷ l) same hq hp hk (e, h) = (
  same ((p + 255) % 256) (omega arith) ∙ e,
  Below-kept c d q (k + 1) ((p + 255) % 256) l same hq (omega arith) (omega arith) h,
)

-- A write at the pointer pushes.
pub Below-push :
    (c d : ℕ → ℕ) (p v : ℕ) (l : List ℕ)
    → ((j : ℕ) → d j ≡ (if p == j then v else c j))
    → p < 256
    → length l < 256
    → Below c p l
    → Below d ((p + 1) % 256) (v ∷ l)
Below-push c d p v l h hp hl b =
    let back : ((p + 1) % 256 + 255) % 256 ≡ p = omega arith in
    rw back (
      ground (arith, h p),
      Below-kept c d p 0 p l (λ j ne. ground (arith, h j)) hp (omega arith) (omega arith) b,
    )

-- Only the cells count.
pub Below-congr :
    (c d : ℕ → ℕ) (p : ℕ) (l : List ℕ) → ((j : ℕ) → d j ≡ c j) → Below c p l → Below d p l
Below-congr c d p [] h b = tt
Below-congr c d p (x ∷ l) h (e, b) = (h _ ∙ e, Below-congr c d ((p + 255) % 256) l h b)
