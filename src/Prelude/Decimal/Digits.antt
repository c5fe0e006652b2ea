-- ===== src/Prelude/Decimal/Digits.antt =====
-- The characters of the decimal notation, and reading it back.
use Prim.Native.Char.{Char, code, len_utf8}
use Prim.Native.String.{String, [] as nil, ◌∷◌ as cons, ◌++◌ as str_append}
use Prim.Native.String.append.{cons as append_cons_clause, nil as append_nil_clause}
use dtvn.Prelude.Tests.{ltb, Bool-cases}
use Prim.Native.Nat.{ℕ, zero, suc, ◌<◌, ◌+◌, ◌*◌, ◌-◌, ◌/◌, ◌%◌}
use mathlib.Core.Path.{◌≡◌, refl, sym, ap, ◌∙◌}
use mathlib.Core.Logic.{inl, inr}
use native.Mathlib.Omega.{arith}
use dtvn.Prelude.Int.{pos}
use dtvn.Prelude.Decimal.{format_digit, format_from, format_int}

-- The character of a digit.
pub record Digit (d : ℕ) : Type 0 where
  pub char : Char
  pub is_digit : format_digit d ≡ cons char nil
  pub code_eq : code char ≡ 48 + d
  pub one_byte : len_utf8 char ≡ 1

abbrev literal :
    {d : ℕ} (c : Char) → format_digit d ≡ cons c nil → code c ≡ 48 + d → len_utf8 c ≡ 1 → Digit d
literal c p q r = record { char = c; is_digit = p; code_eq = q; one_byte = r }

pub digit : (d : ℕ) → d < 10 → Digit d
unfolding format_digit
digit zero h = literal "0" refl refl refl
digit (suc zero) h = literal "1" refl refl refl
digit (suc (suc zero)) h = literal "2" refl refl refl
digit (suc (suc (suc zero))) h = literal "3" refl refl refl
digit (suc (suc (suc (suc zero)))) h = literal "4" refl refl refl
digit (suc (suc (suc (suc (suc zero))))) h = literal "5" refl refl refl
digit (suc (suc (suc (suc (suc (suc zero)))))) h = literal "6" refl refl refl
digit (suc (suc (suc (suc (suc (suc (suc zero))))))) h = literal "7" refl refl refl
digit (suc (suc (suc (suc (suc (suc (suc (suc zero)))))))) h = literal "8" refl refl refl
digit (suc (suc (suc (suc (suc (suc (suc (suc (suc zero))))))))) h = literal "9" refl refl refl
digit (suc (suc (suc (suc (suc (suc (suc (suc (suc (suc n)))))))))) h = absurd (omega arith)

pub append_cons : (c : Char) (s t : String) → str_append (cons c s) t ≡ cons c (str_append s t)
append_cons c s t = λ i. append_cons_clause c s t i

pub append_nil : (t : String) → str_append nil t ≡ t
append_nil t = λ i. append_nil_clause t i

pub digit-append :
    (d : ℕ) (r : String) (c : Digit d) → str_append (format_digit d) r ≡ cons c.char r
digit-append d r c =
    ap (λ s. str_append s r) c.is_digit ∙ append_cons c.char nil r ∙ ap (cons c.char) (append_nil r)

-- what digits in front of a text stand for, after those that stand for `acc`
read : ℕ → String → ℕ
read acc nil = acc
read acc (cons c s) = read (acc * 10 + (code c - 48)) s

read-digit :
    (acc d : ℕ) (rest : String)
    → d < 10
    → read acc (str_append (format_digit d) rest) ≡ read (acc * 10 + d) rest
unfolding read
read-digit acc d rest h =
    let c = digit d h in
    ap (read acc) (digit-append d rest c)
    ∙ ap (λ k. read (acc * 10 + (k - 48)) rest) c.code_eq
    ∙ ap (λ k. read k rest) (omega arith)

read-format_from : (f n : ℕ) (rest : String) → n < f → read 0 (format_from f n rest) ≡ read n rest
unfolding format_from
read-format_from zero n rest h = absurd (omega arith)
read-format_from (suc f) n rest h = elim (Bool-cases (ltb n 10)) [
  | inl e ↦ rw e (read-digit 0 n rest (ground arith) ∙ ap (λ k. read k rest) (omega arith))
  | inr e ↦ rw e (
      read-format_from f (n / 10) (str_append (format_digit (n % 10)) rest) (ground arith)
      ∙ read-digit (n / 10) (n % 10) rest (omega arith)
      ∙ ap (λ k. read k rest) (omega arith))
]

read-format_int : (n : ℕ) → read 0 (format_int (pos n)) ≡ n
unfolding format_int read
read-format_int n = read-format_from (n + 1) n "" (omega arith)

-- Different numbers have different notations.
pub format_int_injective : (a b : ℕ) → format_int (pos a) ≡ format_int (pos b) → a ≡ b
format_int_injective a b e = sym (read-format_int a) ∙ ap (read 0) e ∙ read-format_int b
