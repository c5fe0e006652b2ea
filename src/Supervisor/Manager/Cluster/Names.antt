-- ===== src/Supervisor/Manager/Cluster/Names.antt =====
-- The names of the nodes of a cluster.
use Prim.Native.String.{String, ◌∷◌ as cons, ◌++◌ as str_append}
use dtvn.Prelude.{ℕ, ◌≡◌, sym, ap, ◌∙◌}
use dtvn.Prelude.Int.{pos}
use dtvn.Prelude.Decimal.{format_int}
use dtvn.Prelude.Decimal.Digits.{append_cons, append_nil, format_int_injective}
use dtvn.Supervisor.Manager.Cluster.{node_name}

rest4 : String → String
rest4 (cons a (cons b (cons c (cons d s)))) = s
rest4 s = s

rest4-node : (s : String) → rest4 (str_append "node" s) ≡ s
unfolding rest4
rest4-node s = ap rest4 (
    append_cons "n" "ode" s
    ∙ ap (cons "n") (
        append_cons "o" "de" s
        ∙ ap (cons "o") (
            append_cons "d" "e" s
            ∙ ap (cons "d") (append_cons "e" "" s ∙ ap (cons "e") (append_nil s)))))

pub node_name_injective : (a b : ℕ) → node_name a ≡ node_name b → a ≡ b
unfolding node_name
node_name_injective a b e =
    format_int_injective a b
      (sym (rest4-node (format_int (pos a))) ∙ ap rest4 e ∙ rest4-node (format_int (pos b)))
