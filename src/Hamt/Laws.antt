-- ===== src/Hamt/Laws.antt =====
-- The trie of src/hamt.h is a finite map from keys to values, whatever the hash function is.
use buxn_jit.Prelude.{ℕ, ◌/◌, ◌^◌, ◌≡◌, ◌≢◌, some, arith}
use buxn_jit.Hamt.{Trie, leaf, node, num_bits, search, put}

module _ {ℓ} {V : Type ℓ} where
  -- A search with the hash and the key that a value was written under finds it, whatever the hash.
  pub search-put_self : (t : Trie V) (h k : ℕ) (v : V) → search (put t h k v) h k ≡ some v
  unfolding search put
  search-put_self leaf h k v = ground arith
  search-put_self (node j w a b c d) h k v =
      let r = h / 2 ^ num_bits in
      ground (
        arith,
        search-put_self a r k v,
        search-put_self b r k v,
        search-put_self c r k v,
        search-put_self d r k v,
      )

  -- A write leaves what a search for any other key finds, whatever the two hashes are.
  pub search-put_ne :
      (t : Trie V) (h k g j : ℕ) (v : V) → k ≢ j → search (put t h k v) g j ≡ search t g j
  unfolding search put
  search-put_ne leaf h k g j v ne = ground arith
  search-put_ne (node i w a b c d) h k g j v ne =
      let r = h / 2 ^ num_bits in
      let s = g / 2 ^ num_bits in
      ground (
        arith,
        search-put_ne a r k s j v ne,
        search-put_ne b r k s j v ne,
        search-put_ne c r k s j v ne,
        search-put_ne d r k s j v ne,
      )
