-- ===== src/Supervisor/Buffer.antt =====
-- pkg/supervisor/manager.go, `OutputBuffer`: the last lines that a process has written. Its mutex
-- makes each method one step.
pub mod Last
use dtvn.Prelude.{ℕ, zero, suc, ◌-◌, String, List, [], ◌∷◌, ◌++◌, if◌then◌else◌, ltb, length}

pub record OutputBuffer : Type 0 where
  pub lines : List String
  pub max_lines : ℕ

-- `xs[n:]`, where `n` is at most the length
abbrev pub drop {ℓ} : {A : Type ℓ} → ℕ → List A → List A
drop zero xs = xs
drop (suc n) [] = []
drop (suc n) (x ∷ xs) = drop n xs

unfoldable pub new : ℕ → OutputBuffer
new max_lines = record { lines = []; max_lines = max_lines }

unfoldable pub write : OutputBuffer → String → OutputBuffer
write b line =
    let lines = b.lines ++ line ∷ [] in
    record b {
      lines =
          if ltb b.max_lines (length lines) then drop (length lines - b.max_lines) lines else lines;
    }

abbrev pub get_lines : OutputBuffer → List String
get_lines b = b.lines

unfoldable pub clear : OutputBuffer → OutputBuffer
clear b = record b { lines = [] }
