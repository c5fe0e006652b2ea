-- ===== src/Supervisor/Buffer/Last.antt =====
-- An output buffer against the list of all that was written.
use mathlib.Core.List.{append_assoc, append-nil}
use dtvn.Prelude.{
  ℕ, zero, suc, ◌+◌, ◌-◌, ◌≤◌, String, List, [], ◌∷◌, ◌++◌, ◌≡◌, refl, sym, ap, ◌∙◌, ltb, length,
  arith, Bool-cases, inl, inr, length-append,
}
use dtvn.Supervisor.Buffer.{OutputBuffer, drop, new, write, get_lines}

-- the last `n` of a list
abbrev pub last {ℓ} : {A : Type ℓ} → ℕ → List A → List A
last n xs = drop (length xs - n) xs

abbrev pub write_all : OutputBuffer → List String → OutputBuffer
write_all b [] = b
write_all b (line ∷ lines) = write_all (write b line) lines

module _ {ℓ} {A : Type ℓ} where
  drop_nil : (n : ℕ) → drop {A = A} n [] ≡ []
  drop_nil zero = refl
  drop_nil (suc n) = refl

  drop_at : (m n : ℕ) (xs : List A) → m ≡ n → drop m xs ≡ drop n xs
  drop_at m n xs e = ap (λ k. drop k xs) e

  drop-append : (n : ℕ) (xs ys : List A) → n ≤ length xs → drop n (xs ++ ys) ≡ drop n xs ++ ys
  drop-append zero xs ys h = refl
  drop-append (suc n) [] ys h = absurd (omega arith)
  drop-append (suc n) (x ∷ xs) ys h = drop-append n xs ys (omega arith)

  drop-drop : (m n : ℕ) (xs : List A) → drop m (drop n xs) ≡ drop (n + m) xs
  drop-drop m zero xs = ap (λ k. drop k xs) (omega arith)
  drop-drop m (suc n) [] = drop_nil m ∙ sym (drop_nil (suc n + m))
  drop-drop m (suc n) (x ∷ xs) =
      drop-drop m n xs ∙ sym (drop_at (suc n + m) (suc (n + m)) (x ∷ xs) (omega arith))

  length-drop : (n : ℕ) (xs : List A) → length (drop n xs) ≡ length xs - n
  length-drop zero xs = omega arith
  length-drop (suc n) [] = omega arith
  length-drop (suc n) (x ∷ xs) = length-drop n xs ∙ omega arith

  last-last : (n : ℕ) (xs : List A) (y : A) → last n (last n xs ++ y ∷ []) ≡ last n (xs ++ y ∷ [])
  last-last n xs y =
      let k = length xs - n in
      let whole = xs ++ y ∷ [] in
      ap (last n) (sym (drop-append k xs (y ∷ []) (omega arith)))
      ∙ drop-drop (length (drop k whole) - n) k whole
      ∙ drop_at _ _ whole (omega (arith, length-drop k whole, length-append xs (y ∷ [])))

lines-write :
    (b : OutputBuffer) (line : String)
    → (write b line).lines ≡ last b.max_lines (b.lines ++ line ∷ [])
unfolding write
lines-write b line = elim (Bool-cases (ltb b.max_lines (length (b.lines ++ line ∷ [])))) [
  | inl long ↦ rw long refl
  | inr short ↦ rw short (
      sym (
        drop_at (length (b.lines ++ line ∷ []) - b.max_lines) 0 (b.lines ++ line ∷ [])
          (ground arith)))
]

lines-write_all :
    (b : OutputBuffer) (written lines : List String)
    → b.lines ≡ last b.max_lines written
    → (write_all b lines).lines ≡ last b.max_lines (written ++ lines)
unfolding write
lines-write_all b written [] h = h ∙ ap (last b.max_lines) (sym (append-nil written))
lines-write_all b written (line ∷ lines) h =
    lines-write_all (write b line) (written ++ line ∷ []) lines (
      lines-write b line
      ∙ ap (λ held. last b.max_lines (held ++ line ∷ [])) h
      ∙ last-last b.max_lines written line)
    ∙ ap (last b.max_lines) (append_assoc written (line ∷ []) lines)

-- Whatever lines are written to a new output buffer, it holds the last of them, in their order, as
-- many as its size allows.
pub get_lines-write_all-new :
    (max_lines : ℕ) (lines : List String)
    → get_lines (write_all (new max_lines) lines) ≡ last max_lines lines
unfolding new
get_lines-write_all-new max_lines lines =
    lines-write_all (new max_lines) [] lines (sym (drop_nil (0 - max_lines)))
