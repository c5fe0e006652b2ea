-- ===== src/Supervisor/Server/Throttle.antt =====
-- The lines of processes that are broadcast.
use dtvn.Prelude.{
  ℕ, ◌-◌, ◌*◌, ◌≤◌, String, ◌==◌, Option, none, some, List, [], ◌∷◌, if◌then◌else◌, string_eq, ◌≡◌,
  refl, ap, ◌∙◌, arith, Bool-cases, inl, inr,
}
use dtvn.Prelude.GoMap.{lookup, insert}
use dtvn.Prelude.GoMap.Laws.{lookup-insert}
use dtvn.Supervisor.Server.{
  Server, Message, output_callback, broadcast_ws_message, is_throttled, new,
}

-- A line of a node, at a time.
abbrev pub Call : Type 0
Call = ℕ × String × String

-- the times of the lines of a node that are handed to the broadcast
abbrev pub times_passed : String → Server → List Call → List ℕ
times_passed id s [] = []
times_passed id s ((now, node_id, line) ∷ calls) =
    let rest = times_passed id (output_callback s now node_id line).0 calls in
    if node_id == id
    then if (output_callback s now node_id line).1 then now ∷ rest else rest
    else rest

abbrev pub times_of : String → List Call → List ℕ
times_of id [] = []
times_of id ((now, node_id, line) ∷ calls) =
    let rest = times_of id calls in if node_id == id then now ∷ rest else rest

-- Of times, those that are not within 50 ms of the last one that was taken.
abbrev pub spaced_out : Option ℕ → List ℕ → List ℕ
spaced_out last [] = []
spaced_out last (now ∷ times) =
    let late = spaced_out last times in
    let taken = now ∷ spaced_out (some now) times in if is_throttled now last then late else taken

abbrev pub After : ℕ → List ℕ → Type 0
After last [] = Unit
After last (now ∷ times) = (50 * 1000000 ≤ now - last) × After now times

abbrev pub IsSpaced : List ℕ → Type 0
IsSpaced [] = Unit
IsSpaced (first ∷ times) = After first times

spaced_out-After : (last : ℕ) (times : List ℕ) → After last (spaced_out (some last) times)
spaced_out-After last [] = tt
spaced_out-After last (now ∷ times) = elim (Bool-cases (is_throttled now (some last))) [
  | inl e ↦ rw e (spaced_out-After last times)
  | inr e ↦ rw e (ground arith, spaced_out-After now times)
]

spaced_out-IsSpaced : (times : List ℕ) → IsSpaced (spaced_out none times)
spaced_out-IsSpaced [] = tt
spaced_out-IsSpaced (now ∷ times) = spaced_out-After now times

throttle-broadcast_ws_message :
    (s : Server) (e : Message) → (broadcast_ws_message s e).output_throttle ≡ s.output_throttle
unfolding broadcast_ws_message
throttle-broadcast_ws_message s e = ground arith

throttle-output_callback :
    (s : Server) (now : ℕ) (node_id line id : String)
    → lookup id (output_callback s now node_id line).0.output_throttle ≡ (
        if (output_callback s now node_id line).1
        then (if node_id == id then some now else lookup id s.output_throttle)
        else lookup id s.output_throttle)
unfolding output_callback
throttle-output_callback s now node_id line id =
    elim (Bool-cases (is_throttled now (lookup node_id s.output_throttle))) [
      | inl e ↦ rw e refl
      | inr e ↦ rw e (
          ap (λ t. lookup id t)
            (throttle-broadcast_ws_message
              (record s { output_throttle = insert node_id now s.output_throttle }) _)
          ∙ lookup-insert node_id id now s.output_throttle)
    ]

times_passed_lem :
    (id : String) (s : Server) (calls : List Call)
    → times_passed id s calls ≡ spaced_out (lookup id s.output_throttle) (times_of id calls)
unfolding output_callback
times_passed_lem id s [] = refl
times_passed_lem id s ((now, node_id, line) ∷ calls) = ground (
  arith,
  times_passed_lem id (output_callback s now node_id line).0 calls,
  throttle-output_callback s now node_id line id,
  string_eq.beq_iff node_id id,
)

-- Whatever lines the nodes of a new supervisor write, those of a node that are handed to the
-- broadcast are just those that are not written within 50 ms of the last one of that node that
-- was, as if the other nodes were silent, and any two that follow each other are at least 50 ms
-- apart.
pub times_passed-new :
    (id : String) (calls : List Call)
    → (times_passed id new calls ≡ spaced_out none (times_of id calls))
      × IsSpaced (times_passed id new calls)
unfolding lookup
times_passed-new id calls =
    let same = times_passed_lem id new calls in
    (same, rw same (spaced_out-IsSpaced (times_of id calls)))
