-- ===== src/Gossip/Bloom/Members.antt =====
-- The filter never forgets a key that was added.
use native.Mathlib.Nat.{mod-lt}
use dtvn.Prelude.{
  ℕ, ◌%◌, ◌*◌, ◌<◌, String, Bool, true, false, List, [], ◌∷◌, ◌≡◌, refl, ◌∙◌, arith, length, nat_eq,
}
use dtvn.Prelude.Arrays.{get_or, set, length-set, get_or-set, length-replicate}
use dtvn.Gossip.Bloom.{BloomFilter, get_hashes, set_all, add, all_set, contains, new}

pub record IsValid (bf : BloomFilter) : Type 0 where
  pub sized : length bf.bits ≡ bf.size
  pub positive : 0 < bf.size

pub new-IsValid : (capacity : ℕ) → 0 < capacity → IsValid (new capacity)
unfolding new
new-IsValid capacity h = record {
  sized = length-replicate (capacity * 10) false;
  positive = omega arith;
}

length-set_all :
    (bits : List Bool) (size : ℕ) (hs : List ℕ) → length (set_all bits size hs) ≡ length bits
unfolding set_all
length-set_all bits size [] = refl
length-set_all bits size (h ∷ hs) =
    length-set_all (set bits (h % size) true) size hs ∙ length-set bits (h % size) true

pub add-IsValid :
    (fnv : String → ℕ) (bf : BloomFilter) (key : String) → IsValid bf → IsValid (add fnv bf key)
unfolding add
add-IsValid fnv bf key v = record {
  sized = length-set_all bf.bits bf.size (get_hashes fnv bf key) ∙ v.sized;
  positive = v.positive;
}

-- A slot that is set stays set.
get_or-set_all :
    (bits : List Bool) (size : ℕ) (hs : List ℕ) (j : ℕ)
    → 0 < size
    → length bits ≡ size
    → get_or bits false j ≡ true
    → get_or (set_all bits size hs) false j ≡ true
unfolding set_all
get_or-set_all bits size [] j p e h = h
get_or-set_all bits size (k ∷ hs) j p e h =
    get_or-set_all (set bits (k % size) true) size hs j p (length-set bits (k % size) true ∙ e)
      (ground (arith, get_or-set bits false true (k % size) j, mod-lt k p))

all_set-set_all :
    (bits : List Bool) (size : ℕ) (hs ks : List ℕ)
    → 0 < size
    → length bits ≡ size
    → all_set bits size ks ≡ true
    → all_set (set_all bits size hs) size ks ≡ true
unfolding all_set
all_set-set_all bits size hs [] p e h = refl
all_set-set_all bits size hs (k ∷ ks) p e h =
    ground (arith, get_or-set_all bits size hs (k % size) p e, all_set-set_all bits size hs ks p e)

all_set-set_all_self :
    (bits : List Bool) (size : ℕ) (hs : List ℕ)
    → 0 < size
    → length bits ≡ size
    → all_set (set_all bits size hs) size hs ≡ true
unfolding all_set set_all
all_set-set_all_self bits size [] p e = refl
all_set-set_all_self bits size (h ∷ hs) p e = ground (
  arith,
  get_or-set bits false true (h % size) (h % size),
  mod-lt h p,
  length-set bits (h % size) true,
  get_or-set_all (set bits (h % size) true) size hs (h % size) p,
  all_set-set_all_self (set bits (h % size) true) size hs p,
)

module _ (fnv : String → ℕ) (bf : BloomFilter) (key : String) (v : IsValid bf) where
  pub contains-add_self : contains fnv (add fnv bf key) key ≡ true
  unfolding contains add get_hashes
  contains-add_self =
      all_set-set_all_self bf.bits bf.size (get_hashes fnv bf key) v.positive v.sized

  pub contains-add_other :
      (other : String) → contains fnv bf other ≡ true → contains fnv (add fnv bf key) other ≡ true
  unfolding contains add get_hashes
  contains-add_other other h =
      all_set-set_all bf.bits bf.size (get_hashes fnv bf key) (get_hashes fnv bf other) v.positive
        v.sized h
