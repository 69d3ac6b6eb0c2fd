-- ===== src/Hamt.antt =====
-- src/hamt.h: the hash trie with four children a node. A node holds its key with its value, and
-- the hash chooses the child, two bits a level.
pub mod Laws
use buxn_jit.Prelude.{
  ℕ, ◌/◌, ◌^◌, ◌*◌, ◌%◌, bit_and, bit_xor, Option, none, some, ◌==◌, if◌then◌else◌,
}

pub data Trie {ℓ} (V : Type ℓ) : Type ℓ where
  leaf : Trie V
  node : ℕ → V → Trie V → Trie V → Trie V → Trie V → Trie V

-- BHAMT_NUM_BITS and BHAMT_MASK
abbrev pub num_bits : ℕ
num_bits = 2

abbrev pub mask : ℕ
mask = 3

-- `children[i]`, for i below 4
abbrev pub pick {ℓ} : {A : Type ℓ} → ℕ → A → A → A → A → A
pick i a b c d = if i == 0 then a else if i == 1 then b else if i == 2 then c else d

module _ {ℓ} {V : Type ℓ} where
  -- RESULT of BHAMT_SEARCH
  unfoldable pub search : Trie V → ℕ → ℕ → Option V
  search leaf hash key = none
  search (node k v a b c d) hash key =
      if k == key
      then some v
      else pick (bit_and hash mask) (search a (hash / 2 ^ num_bits) key)
          (search b (hash / 2 ^ num_bits) key) (search c (hash / 2 ^ num_bits) key)
          (search d (hash / 2 ^ num_bits) key)

  -- ITR of BHAMT_SEARCH, written through: a new node goes into the empty slot where the search
  -- stops, and a search that finds the key puts the new value into the node that it found.
  unfoldable pub put : Trie V → ℕ → ℕ → V → Trie V
  put leaf hash key w = node key w leaf leaf leaf leaf
  put (node k v a b c d) hash key w =
      let rest = hash / 2 ^ num_bits in
      let i = bit_and hash mask in
      if k == key
      then node k w a b c d
      else node k v (pick i (put a rest key w) a a a) (pick i b (put b rest key w) b b)
          (pick i c c (put c rest key w) c) (pick i d d d (put d rest key w))

-- The hash of src/jit.c, on 32 bits.
unfoldable pub prospector32 : ℕ → ℕ
prospector32 x0 =
    let x1 = bit_xor x0 (x0 / 2 ^ 15) in
    let x2 = x1 * 0x2c1b3c6d % 2 ^ 32 in
    let x3 = bit_xor x2 (x2 / 2 ^ 12) in
    let x4 = x3 * 0x297a2d39 % 2 ^ 32 in bit_xor x4 (x4 / 2 ^ 15)
