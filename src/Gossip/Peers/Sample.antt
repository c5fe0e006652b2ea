-- ===== src/Gossip/Peers/Sample.antt =====
-- What is selected is a part of the peers, whatever is drawn.
use dtvn.Prelude.{
  ℕ, zero, suc, ◌+◌, ◌≤◌, ◌<◌, String, Bool, List, [], ◌∷◌, leb, if◌then◌else◌, nat_eq, length,
  count_where, ◌≡◌, refl, ◌∙◌, arith,
}
use dtvn.Prelude.Arrays.{get_or, set, take, length-set, get_or-set}
use dtvn.Gossip.Peers.{swap, shuffle, select_random_peers}

-- Each draw is one that `rand.Intn` can return in its round.
abbrev pub InRange : ℕ → ℕ → List ℕ → Type 0
InRange size i [] = Unit
InRange size i (draw ∷ draws) = (i + draw < size) × InRange size (suc i) draws

abbrev weight : (String → Bool) → String → ℕ
weight p x = if p x then 1 else 0

count_where-set :
    (p : String → Bool) (xs : List String) (i : ℕ) (v : String)
    → i < length xs
    → count_where p (set xs i v) + weight p (get_or xs "" i) ≡ count_where p xs + weight p v
count_where-set p [] i v h = absurd (omega arith)
count_where-set p (x ∷ xs) zero v h = ground arith
count_where-set p (x ∷ xs) (suc i) v h = ground (arith, count_where-set p xs i v)

count_where-swap :
    (p : String → Bool) (xs : List String) (i j : ℕ)
    → i < length xs
    → j < length xs
    → count_where p (swap xs i j) ≡ count_where p xs
unfolding swap
count_where-swap p xs i j h k = ground (
  arith,
  count_where-set p xs i (get_or xs "" j) h,
  count_where-set p (set xs i (get_or xs "" j)) j (get_or xs "" i),
  length-set xs i (get_or xs "" j),
  get_or-set xs "" (get_or xs "" j) i j h,
)

length-swap : (xs : List String) (i j : ℕ) → length (swap xs i j) ≡ length xs
unfolding swap
length-swap xs i j =
    length-set (set xs i (get_or xs "" j)) j (get_or xs "" i) ∙ length-set xs i (get_or xs "" j)

count_where-shuffle :
    (p : String → Bool) (xs : List String) (i : ℕ) (draws : List ℕ)
    → InRange (length xs) i draws
    → (count_where p (shuffle xs i draws) ≡ count_where p xs)
      × (length (shuffle xs i draws) ≡ length xs)
unfolding shuffle
count_where-shuffle p xs i [] r = (refl, refl)
count_where-shuffle p xs i (draw ∷ draws) r =
    let (c, l) =
      count_where-shuffle p (swap xs i (i + draw)) (suc i) draws
        (rw (length-swap xs i (i + draw)) r.1) in
    (
      c ∙ count_where-swap p xs i (i + draw) (omega (arith, r.0)) r.0,
      l ∙ length-swap xs i (i + draw),
    )

count_where-take-le :
    (p : String → Bool) (n : ℕ) (xs : List String) → count_where p (take n xs) ≤ count_where p xs
count_where-take-le p zero xs = omega arith
count_where-take-le p (suc n) [] = omega arith
count_where-take-le p (suc n) (x ∷ xs) = ground (arith, count_where-take-le p n xs)

length-take_of_le : (n : ℕ) (xs : List String) → n ≤ length xs → length (take n xs) ≡ n
length-take_of_le zero xs h = refl
length-take_of_le (suc n) [] h = absurd (omega arith)
length-take_of_le (suc n) (x ∷ xs) h = ground (arith, length-take_of_le n xs)

-- Where each draw is in the range of its round, the peers that are selected are as many as asked
-- for, or all if there are no more, and no peer is among them more often than among the peers.
select_random_peers_lem :
    (p : String → Bool) (peers : List String) (n : ℕ) (draws : List ℕ)
    → InRange (length peers) 0 draws
    → (count_where p (select_random_peers peers n draws) ≤ count_where p peers)
      × (length (select_random_peers peers n draws)
          ≡ (if leb (length peers) n then length peers else n))
unfolding select_random_peers
select_random_peers_lem p peers n draws r =
    let (c, l) = count_where-shuffle p peers 0 draws r in
    ground (
      arith,
      c,
      l,
      count_where-take-le p n (shuffle peers 0 draws),
      length-take_of_le n (shuffle peers 0 draws),
    )
