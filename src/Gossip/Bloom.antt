-- ===== src/Gossip/Bloom.antt =====
-- pkg/gossip/cache.go, the `BloomFilter`. The sum is that of hash/fnv, `New64a`, a number below
-- 2^64. A slot is an index modulo the size; Go panics where the size is 0.
pub mod Members
use dtvn.Prelude.{
  ℕ, zero, suc, ◌+◌, ◌*◌, ◌/◌, ◌%◌, ◌^◌, String, Bool, true, false, ◌&&◌, List, [], ◌∷◌,
  if◌then◌else◌, ◌==◌, nat_eq,
}
use dtvn.Prelude.Arrays.{replicate, get_or, set}

pub record BloomFilter : Type 0 where
  pub bits : List Bool
  pub size : ℕ
  pub hash_count : ℕ

-- the false positive rate is not read
unfoldable pub new : ℕ → BloomFilter
new capacity = record {
  bits = replicate (capacity * 10) false;
  size = capacity * 10;
  hash_count = 7;
}

-- the loop of `getHashes` from round `i` on
unfoldable pub hashes_from : ℕ → ℕ → ℕ → ℕ → List ℕ
hashes_from zero i h1 h2 = []
hashes_from (suc rounds) i h1 h2 = ((h1 + i * h2) % 2 ^ 31) ∷ hashes_from rounds (suc i) h1 h2

unfoldable pub get_hashes : (String → ℕ) → BloomFilter → String → List ℕ
unfolding hashes_from
get_hashes fnv bf key =
    let sum = fnv key in
    let h2 = sum / 2 ^ 32 in hashes_from bf.hash_count 0 (sum % 2 ^ 32) (if h2 == 0 then 1 else h2)

-- the loop of `Add`
unfoldable pub set_all : List Bool → ℕ → List ℕ → List Bool
set_all bits size [] = bits
set_all bits size (h ∷ hs) = set_all (set bits (h % size) true) size hs

unfoldable pub add : (String → ℕ) → BloomFilter → String → BloomFilter
unfolding set_all
add fnv bf key = record bf { bits = set_all bf.bits bf.size (get_hashes fnv bf key) }

-- the loop of `Contains`, which the first slot that is not set ends
unfoldable pub all_set : List Bool → ℕ → List ℕ → Bool
all_set bits size [] = true
all_set bits size (h ∷ hs) = get_or bits false (h % size) && all_set bits size hs

unfoldable pub contains : (String → ℕ) → BloomFilter → String → Bool
unfolding all_set
contains fnv bf key = all_set bf.bits bf.size (get_hashes fnv bf key)
