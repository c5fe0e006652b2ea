-- ===== src/Gossip/Cache/Elements.antt =====
-- The list of a cache, whose elements differ in their references and in their keys.
use dtvn.Prelude.{
  ℕ, suc, ◌-◌, ◌<◌, String, Option, none, some, List, [], ◌∷◌, if◌then◌else◌, ◌==◌, ◌≡◌, ◌≢◌, refl,
  ap, inl, inr, length, nat_eq, string_eq, arith, All, Bool-cases, beq_refl,
}
use dtvn.Prelude.Arrays.{take}
use dtvn.Prelude.GoMap.{GoMap, lookup, delete, delete_where}
use dtvn.Prelude.GoMap.Laws.{is_some}
use dtvn.Gossip.Message.{Message}
use dtvn.Gossip.Cache.{Element, find, remove, move_to_front, set_message, back}

abbrev pub IsApart : Element → List Element → Type 0
IsApart x es = All (λ e. (x.key ≢ e.key) × (x.ref ≢ e.ref)) es

abbrev pub IsDistinct : List Element → Type 0
IsDistinct [] = Unit
IsDistinct (e ∷ es) = IsApart e es × IsDistinct es

-- What the list holds: each key with its message, the one used last in front.
abbrev pub entries : List Element → GoMap String Message
entries [] = []
entries (e ∷ es) = (e.key, e.message) ∷ entries es

-- The reference that the map must bind to a key.
abbrev pub ref_of : String → List Element → Option ℕ
ref_of k [] = none
ref_of k (e ∷ es) = if e.key == k then some e.ref else ref_of k es

pub length-entries : (es : List Element) → length (entries es) ≡ length es
length-entries [] = refl
length-entries (e ∷ es) = ground (arith, length-entries es)

apart_ref :
    (x : Element) (es : List Element) (k : String) (r : ℕ)
    → IsApart x es
    → ref_of k es ≡ some r
    → (x.key ≢ k) × (x.ref ≢ r)
apart_ref x [] k r a h = cc
apart_ref x (e ∷ es) k r a h = elim (Bool-cases (e.key == k)) [
  | inl p ↦ ground (arith, string_eq.beq_iff e.key k)
  | inr p ↦ apart_ref x es k r a.1 (rw p at h)
]

apart_none : (x : Element) (es : List Element) → IsApart x es → ref_of x.key es ≡ none
apart_none x [] a = refl
apart_none x (e ∷ es) a = ground (arith, string_eq.beq_iff e.key x.key, apart_none x es a.1)

apart_delete :
    (x : Element) (es : List Element) → IsApart x es → delete x.key (entries es) ≡ entries es
unfolding delete delete_where
apart_delete x [] a = refl
apart_delete x (e ∷ es) a = ground (arith, string_eq.beq_iff e.key x.key, apart_delete x es a.1)

IsApart-remove : (x : Element) (r : ℕ) (es : List Element) → IsApart x es → IsApart x (remove r es)
unfolding remove
IsApart-remove x r [] a = tt
IsApart-remove x r (e ∷ es) a = ground (arith, IsApart-remove x r es a.1)

pub IsDistinct-remove : (r : ℕ) (es : List Element) → IsDistinct es → IsDistinct (remove r es)
unfolding remove
IsDistinct-remove r [] d = tt
IsDistinct-remove r (e ∷ es) d =
    ground (arith, IsApart-remove e r es d.0, IsDistinct-remove r es d.1)

-- What a reference finds and removes is what stands under its key.
pub record Finds (k : String) (r : ℕ) (es : List Element) : Type 0 where
  pub element : Element
  pub found : find r es ≡ some element
  pub its_key : element.key ≡ k
  pub its_ref : element.ref ≡ r
  pub bound : lookup k (entries es) ≡ some element.message
  pub removed : entries (remove r es) ≡ delete k (entries es)
  pub unbound : (j : String) → ref_of j (remove r es) ≡ (if k == j then none else ref_of j es)
  pub apart : IsApart element (remove r es)
  pub shorter : suc (length (remove r es)) ≡ length es

pub find-remove :
    (k : String) (r : ℕ) (es : List Element) → IsDistinct es → ref_of k es ≡ some r → Finds k r es
unfolding find remove lookup delete delete_where
find-remove k r [] d h = absurd (ground arith)
find-remove k r (e ∷ es) d h = elim (Bool-cases (e.key == k)) [
  | inl p ↦
      let q : e.ref ≡ r = ground arith in
      let s : e.key ≡ k = (string_eq.beq_iff e.key k).0 p in
      record {
        element = e;
        found = ground (arith, nat_eq.beq_iff e.ref r);
        its_key = s;
        its_ref = q;
        bound = ground arith;
        removed = ground (arith, nat_eq.beq_iff e.ref r, apart_delete e es d.0);
        unbound = λ j. ground (
          arith,
          nat_eq.beq_iff e.ref r,
          apart_none e es d.0,
          string_eq.beq_iff k j,
          string_eq.beq_iff e.key j,
        );
        apart = ground (arith, nat_eq.beq_iff e.ref r);
        shorter = ground (arith, nat_eq.beq_iff e.ref r);
      }
  | inr p ↦
      let inner : Finds k r es = find-remove k r es d.1 (ground arith) in
      record {
        element = inner.element;
        found = ground (arith, nat_eq.beq_iff e.ref r, inner.found, apart_ref e es k r d.0);
        its_key = inner.its_key;
        its_ref = inner.its_ref;
        bound = ground (arith, inner.bound);
        removed = ground (arith, nat_eq.beq_iff e.ref r, inner.removed, apart_ref e es k r d.0);
        unbound = λ j. ground (
          arith,
          nat_eq.beq_iff e.ref r,
          inner.unbound j,
          apart_ref e es k r d.0,
          string_eq.beq_iff k j,
          string_eq.beq_iff e.key j,
          string_eq.beq_iff e.key k,
        );
        apart = ground (
          arith,
          nat_eq.beq_iff e.ref r,
          inner.apart,
          inner.its_key,
          inner.its_ref,
          apart_ref e es k r d.0,
        );
        shorter = ground (arith, nat_eq.beq_iff e.ref r, inner.shorter, apart_ref e es k r d.0);
      }
]

pub delete-entries_none :
    (k : String) (es : List Element) → ref_of k es ≡ none → delete k (entries es) ≡ entries es
unfolding delete delete_where
delete-entries_none k [] h = refl
delete-entries_none k (e ∷ es) h = ground (arith, delete-entries_none k es)

pub is_some-ref_of :
    (k : String) (es : List Element) → is_some (lookup k (entries es)) ≡ is_some (ref_of k es)
unfolding lookup
is_some-ref_of k [] = refl
is_some-ref_of k (e ∷ es) = ground (arith, is_some-ref_of k es)

-- An element with a new key and a reference above all others.
pub IsApart-new :
    (x : Element) (es : List Element)
    → IsDistinct es
    → ((k : String) (r : ℕ) → ref_of k es ≡ some r → r < x.ref)
    → ref_of x.key es ≡ none
    → IsApart x es
IsApart-new x [] d f h = tt
IsApart-new x (e ∷ es) d f h = (
  (
    λ p. ground (arith, string_eq.beq_iff e.key x.key),
    λ p. ground (arith, f e.key e.ref, beq_refl e.key),
  ),
  IsApart-new x es d.1
      (λ k r q. ground (arith, f k r, apart_ref e es k r d.0, string_eq.beq_iff e.key k))
      (ground arith),
)

-- Moving an element to the front, and writing its message.
pub record Moved (k : String) (r : ℕ) (es : List Element) : Type 0 where
  pub moved_entry :
      (m : Message)
      → lookup k (entries es) ≡ some m
      → entries (move_to_front r es) ≡ (k, m) ∷ delete k (entries es)
  pub written :
      (m : Message)
      → entries (set_message r m (move_to_front r es)) ≡ (k, m) ∷ delete k (entries es)
  pub same_refs : (j : String) → ref_of j (move_to_front r es) ≡ ref_of j es
  pub same_refs_written :
      (m : Message) (j : String) → ref_of j (set_message r m (move_to_front r es)) ≡ ref_of j es
  pub distinct : IsDistinct (move_to_front r es)
  pub distinct_written : (m : Message) → IsDistinct (set_message r m (move_to_front r es))

pub moves :
    (k : String) (r : ℕ) (es : List Element) → IsDistinct es → ref_of k es ≡ some r → Moved k r es
unfolding move_to_front set_message
moves k r es d h =
    let f : Finds k r es = find-remove k r es d h in
    record {
      moved_entry = λ m l. ground (arith, f.found, f.its_key, f.bound, f.removed);
      written = λ m.
          ground (arith, f.found, f.its_key, f.its_ref, f.removed, nat_eq.beq_iff f.element.ref r);
      same_refs =
          λ j. ground (arith, f.found, f.its_key, f.its_ref, f.unbound j, string_eq.beq_iff k j);
      same_refs_written = λ m j. ground (
        arith,
        f.found,
        f.its_key,
        f.its_ref,
        f.unbound j,
        string_eq.beq_iff k j,
        nat_eq.beq_iff f.element.ref r,
      );
      distinct = ground (arith, f.found, f.apart, IsDistinct-remove r es d);
      distinct_written = λ m. ground (
        arith,
        f.found,
        f.its_ref,
        f.apart,
        IsDistinct-remove r es d,
        nat_eq.beq_iff f.element.ref r,
      );
    }

-- The last element: its reference stands under its key, and removing it cuts the list short.
pub back_ref :
    (es : List Element) (e : Element)
    → IsDistinct es
    → back es ≡ some e
    → ref_of e.key es ≡ some e.ref
unfolding back
back_ref [] e d h = cc
back_ref (x ∷ []) e d h = ground (arith, beq_refl e.key)
back_ref (x ∷ y ∷ es) e d h = ground (
  arith,
  back_ref (y ∷ es) e d.1 h,
  apart_ref x (y ∷ es) e.key e.ref d.0,
  string_eq.beq_iff x.key e.key,
)

pub back-none : (es : List Element) → back es ≡ none → es ≡ []
unfolding back
back-none [] h = refl
back-none (x ∷ []) h = cc
back-none (x ∷ y ∷ es) h = absurd (ground (arith, ap length (back-none (y ∷ es) h)))

pub remove-back :
    (es : List Element) (e : Element)
    → IsDistinct es
    → back es ≡ some e
    → entries (remove e.ref es) ≡ take (length es - 1) (entries es)
unfolding back remove
remove-back [] e d h = cc
remove-back (x ∷ []) e d h = ground (arith, nat_eq.beq_iff x.ref e.ref)
remove-back (x ∷ y ∷ es) e d h = ground (
  arith,
  remove-back (y ∷ es) e d.1 h,
  apart_ref x (y ∷ es) e.key e.ref d.0 (back_ref (y ∷ es) e d.1 h),
  nat_eq.beq_iff x.ref e.ref,
)
