-- ===== src/Storage/Keys/Sorted.antt =====
-- The keys of sequence numbers are in the order of the numbers.
use Prim.Native.Nat.{Ordering, compare as compare_ℕ}
use Prim.Native.Char.{Char, code, len_utf8}
use Prim.Native.String.{String, len, compare, then as or_else, ◌∷◌ as cons, ◌++◌ as str_append}
use Prim.Native.String.compare.{cons-cons}
use Prim.Native.String.len.{cons as len_cons_clause}
use text.Mathlib.Text.{is_lt}
use mathlib.Core.Path.{subst₂}
use native.Mathlib.Nat.{pow-suc}
use dtvn.Prelude.{
  ℕ, zero, suc, ◌+◌, ◌-◌, ◌/◌, ◌%◌, ◌^◌, ◌<◌, true, if◌then◌else◌, ltb, leb, lt→ltb, ◌≡◌, refl, sym,
  ap, ◌∙◌, inl, inr, arith, Bool-cases,
}
use dtvn.Prelude.Int.{pos}
use dtvn.Prelude.Decimal.{format_digit, format_from, format_int}
use dtvn.Prelude.Decimal.Digits.{digit, digit-append}
use dtvn.Storage.Keys.{width, zeros, sequence_key}

-- The lexicographic order.
abbrev pub IsBefore : String → String → Type 0
IsBefore s t = is_lt (compare s t) ≡ true

or_else_lt : (m n : ℕ) (o : Ordering) → m < n → is_lt (or_else (compare_ℕ m n) o) ≡ true
or_else_lt m n o h = ground arith

or_else_eq : (m : ℕ) (o : Ordering) → or_else (compare_ℕ m m) o ≡ o
or_else_eq m o = ground arith

compare-cons :
    (c d : Char) (s t : String)
    → compare (cons c s) (cons d t) ≡ or_else (compare_ℕ (code c) (code d)) (compare s t)
compare-cons c d s t = λ i. cons-cons c d s t i

len-cons : (c : Char) (s : String) → len (cons c s) ≡ len_utf8 c + len s
len-cons c s = λ i. len_cons_clause c s i

len-digit : (d : ℕ) (r : String) → d < 10 → len (str_append (format_digit d) r) ≡ suc (len r)
len-digit d r h =
    let c = digit d h in
    ap len (digit-append d r c) ∙ len-cons c.char r ∙ ap (λ k. k + len r) c.one_byte ∙ omega arith

IsBefore-digit :
    (a b : ℕ) (r r' : String)
    → a < b
    → b < 10
    → IsBefore (str_append (format_digit a) r) (str_append (format_digit b) r')
IsBefore-digit a b r r' l h =
    let c = digit a (omega arith) in
    let d = digit b h in
    ap is_lt (
      ap (λ s. compare s (str_append (format_digit b) r')) (digit-append a r c)
      ∙ ap (compare (cons c.char r)) (digit-append b r' d)
      ∙ compare-cons c.char d.char r r')
    ∙ or_else_lt (code c.char) (code d.char) (compare r r') (omega (arith, c.code_eq, d.code_eq))

-- The last `w` digits of `n`, zeros included, in front of `rest`.
padded : ℕ → ℕ → String → String
padded zero n rest = rest
padded (suc w) n rest = padded w (n / 10) (str_append (format_digit (n % 10)) rest)

IsBefore-cons : (c : Char) (r r' : String) → IsBefore r r' → IsBefore (cons c r) (cons c r')
IsBefore-cons c r r' h = ap is_lt (compare-cons c c r r' ∙ or_else_eq (code c) (compare r r')) ∙ h

IsBefore-append_digit :
    (d : ℕ) (r r' : String)
    → d < 10
    → IsBefore r r'
    → IsBefore (str_append (format_digit d) r) (str_append (format_digit d) r')
IsBefore-append_digit d r r' h b =
    let c = digit d h in
    subst₂ IsBefore (sym (digit-append d r c)) (sym (digit-append d r' c))
      (IsBefore-cons c.char r r' b)

IsBefore-rest : (w n : ℕ) (r r' : String) → IsBefore r r' → IsBefore (padded w n r) (padded w n r')
unfolding padded
IsBefore-rest zero n r r' h = h
IsBefore-rest (suc w) n r r' h =
    IsBefore-rest w (n / 10) (str_append (format_digit (n % 10)) r)
      (str_append (format_digit (n % 10)) r') (IsBefore-append_digit (n % 10) r r' (omega arith) h)

IsBefore-padded :
    (w a b : ℕ) (r r' : String) → a < b → b < 10 ^ w → IsBefore (padded w a r) (padded w b r')
unfolding padded
IsBefore-padded zero a b r r' l h = absurd (omega arith)
IsBefore-padded (suc w) a b r r' l h = elim (Bool-cases (ltb (a / 10) (b / 10))) [
  | inl e ↦
      IsBefore-padded w (a / 10) (b / 10) (str_append (format_digit (a % 10)) r)
        (str_append (format_digit (b % 10)) r') (ground arith) (omega (arith, pow-suc 10 w))
  | inr e ↦
      let same : a / 10 ≡ b / 10 = ground arith in
      rw same (
        IsBefore-rest w (b / 10) (str_append (format_digit (a % 10)) r)
          (str_append (format_digit (b % 10)) r')
          (IsBefore-digit (a % 10) (b % 10) r r' (omega (arith, same)) (omega arith)))
]

zeros_shift : (w : ℕ) (r : String) → zeros w (str_append "0" r) ≡ str_append "0" (zeros w r)
unfolding zeros
zeros_shift zero r = refl
zeros_shift (suc w) r = ap (str_append "0") (zeros_shift w r)

padded_zero : (w : ℕ) (r : String) → padded w 0 r ≡ zeros w r
unfolding padded zeros format_digit
padded_zero zero r = refl
padded_zero (suc w) r = padded_zero w (str_append "0" r) ∙ zeros_shift w r

zeros-digit :
    (w n : ℕ) (r : String)
    → n < 10
    → zeros (suc w + len r - len (str_append (format_digit n) r)) (str_append (format_digit n) r)
      ≡ padded (suc w) n r
unfolding padded
zeros-digit w n r h =
    let tens : n / 10 ≡ 0 = omega arith in
    let ones : n % 10 ≡ n = omega arith in
    let places : suc w + len r - len (str_append (format_digit n) r) ≡ w =
      omega (arith, len-digit n r h) in
    rw (tens, ones, places) (sym (padded_zero w (str_append (format_digit n) r)))

-- Padding what is printed gives the digits with their zeros.
zeros-format_from :
    (f w n : ℕ) (r : String)
    → n < f
    → n < 10 ^ suc w
    → zeros (suc w + len r - len (format_from f n r)) (format_from f n r) ≡ padded (suc w) n r
unfolding format_from padded
zeros-format_from zero w n r h l = absurd (omega arith)
zeros-format_from (suc f) zero n r h l =
    let small : n < 10 = omega arith in rw (lt→ltb n 10 small) (zeros-digit zero n r small)
zeros-format_from (suc f) (suc w) n r h l = elim (Bool-cases (ltb n 10)) [
  | inl e ↦ rw e (zeros-digit (suc w) n r (ground arith))
  | inr e ↦
      let next = str_append (format_digit (n % 10)) r in
      let places : suc (suc w) + len r ≡ suc w + len next =
        omega (arith, len-digit (n % 10) r (omega arith)) in
      rw (e, places)
        (zeros-format_from f w (n / 10) next (ground arith) (omega (arith, pow-suc 10 (suc w))))
]

-- A text that fills the key already has no zeros to add.
zeros-always :
    (s : String)
    → (if leb width (len s) then s else zeros (width - len s) s) ≡ zeros (width - len s) s
unfolding zeros
zeros-always s = elim (Bool-cases (leb width (len s))) [
  | inl e ↦ let full : width - len s ≡ 0 = ground arith in rw (e, full)
  | inr e ↦ rw e
]

sequence_key-padded : (n : ℕ) → n < 10 ^ width → sequence_key (pos n) ≡ padded width n ""
unfolding sequence_key format_int
sequence_key-padded n h =
    zeros-always (format_from (n + 1) n "") ∙ zeros-format_from (n + 1) 19 n "" (omega arith) h

-- For sequence numbers from 0 to 2^63 - 1, a lower number has the key that comes first in the
-- order of the bytes.
pub IsBefore-sequence_key :
    (a b : ℕ) → a < b → b < 2 ^ 63 → IsBefore (sequence_key (pos a)) (sequence_key (pos b))
IsBefore-sequence_key a b l h =
    subst₂ IsBefore (sym (sequence_key-padded a (omega arith)))
      (sym (sequence_key-padded b (omega arith))) (IsBefore-padded width a b "" "" l (omega arith))
