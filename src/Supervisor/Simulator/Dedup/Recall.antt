-- ===== src/Supervisor/Simulator/Dedup/Recall.antt =====
-- The cleanup is not seen: a line is a duplicate exactly if it was the last time within the window.
use dtvn.Prelude.{
  ℕ, suc, ◌+◌, ◌-◌, ◌*◌, ◌%◌, ◌≤◌, ◌<◌, String, Bool, not, ◌==◌, Option, none, some, List, [], ◌∷◌,
  if◌then◌else◌, ltb, string_eq, nat_eq, filter, ◌≡◌, refl, ap, ◌∙◌, arith, Bool-cases, inl, inr,
}
use dtvn.Prelude.GoMap.{GoMap, lookup, insert, IsFresh, IsMap}
use dtvn.Prelude.GoMap.Laws.{lookup-insert, IsMap-insert, lookup_of_IsFresh}
use dtvn.Supervisor.Simulator.Dedup.{
  RecentLines, new, is_recent, is_stale, clean, is_duplicate_line,
}

-- The lines with the times at which they came, the last one first.
abbrev pub History : Type 0
History = GoMap String ℕ

-- What is known of a line, against when it came last.
abbrev Matches : ℕ → ℕ → Option ℕ → Option ℕ → Type 0
Matches now window none none = Unit
Matches now window (some t) (some last) = t ≡ last
Matches now window none (some last) = last + 2 * window < now
Matches now window (some t) none = ⊥

abbrev Came : ℕ → Option ℕ → Type 0
Came now none = Unit
Came now (some last) = last ≤ now

module _ (now window : ℕ) where
  IsFresh-filter :
      (k : String) (m : GoMap String ℕ)
      → IsFresh k m
      → IsFresh k (filter (λ e. not (is_stale now window e)) m)
  IsFresh-filter k [] f = tt
  IsFresh-filter k ((j, t) ∷ m) f = elim (Bool-cases (is_stale now window (j, t))) [
    | inl e ↦ rw e (IsFresh-filter k m f.1)
    | inr e ↦ rw e (f.0, IsFresh-filter k m f.1)
  ]

  IsMap-filter :
      (m : GoMap String ℕ) → IsMap m → IsMap (filter (λ e. not (is_stale now window e)) m)
  IsMap-filter [] d = tt
  IsMap-filter ((j, t) ∷ m) d = elim (Bool-cases (is_stale now window (j, t))) [
    | inl e ↦ rw e (IsMap-filter m d.1)
    | inr e ↦ rw e (IsFresh-filter j m d.0, IsMap-filter m d.1)
  ]

  stays : Option ℕ → Option ℕ
  stays none = none
  stays (some t) = if ltb (t + 2 * window) now then none else some t

  lookup-filter :
      (k : String) (m : GoMap String ℕ)
      → IsMap m
      → lookup k (filter (λ e. not (is_stale now window e)) m) ≡ stays (lookup k m)
  unfolding lookup stays
  lookup-filter k [] d = refl
  lookup-filter k ((j, t) ∷ m) d =
      ground (arith, lookup-filter k m d.1, lookup_of_IsFresh j m d.0, string_eq.beq_iff j k)

-- The map of the lines against the whole history.
abbrev pub Recalls : ℕ → RecentLines → History → Type 0
Recalls now d history =
    IsMap d.recent_lines
    × ((line : String)
        → Matches now d.dedup_window (lookup line d.recent_lines) (lookup line history))
    × ((line : String) → Came now (lookup line history))

-- A line that is forgotten is out of the window.
is_recent-Matches :
    (now later window : ℕ) (known last : Option ℕ)
    → now ≤ later
    → Matches now window known last
    → Came now last
    → is_recent later window known ≡ is_recent later window last
is_recent-Matches now later window none none l h c = refl
is_recent-Matches now later window (some t) (some last) l h c = ap (λ k. ltb (later - k) window) h
is_recent-Matches now later window none (some last) l h c = ground arith
is_recent-Matches now later window (some t) none l h c = absurd h

Matches-later :
    (now later window : ℕ) (known last : Option ℕ)
    → now ≤ later
    → Matches now window known last
    → Matches later window known last
Matches-later now later window none none l h = tt
Matches-later now later window (some t) (some last) l h = h
Matches-later now later window none (some last) l h = omega arith
Matches-later now later window (some t) none l h = h

Came-later : (now later : ℕ) (last : Option ℕ) → now ≤ later → Came now last → Came later last
Came-later now later none l h = tt
Came-later now later (some last) l h = omega arith

Matches-stays :
    (now window : ℕ) (known last : Option ℕ)
    → Matches now window known last
    → Matches now window (stays now window known) last
unfolding stays
Matches-stays now window none last h = h
Matches-stays now window (some t) none h = absurd h
Matches-stays now window (some t) (some last) h = elim (Bool-cases (ltb (t + 2 * window) now)) [
  | inl e ↦ rw e (ground arith)
  | inr e ↦ rw e h
]

clean-Recalls :
    (now : ℕ) (d : RecentLines) (history : History)
    → Recalls now d history
    → Recalls now (clean d now) history
unfolding clean
clean-Recalls now d history (map, known, came) = elim (Bool-cases (d.dedup_call_count % 100 == 0)) [
  | inl e ↦ rw e (
    IsMap-filter now d.dedup_window d.recent_lines map,
    (λ line. rw (lookup-filter now d.dedup_window line d.recent_lines map) (
        Matches-stays now d.dedup_window (lookup line d.recent_lines) (lookup line history)
          (known line))),
    came,
  )
  | inr e ↦ rw e (map, known, came)
]

module _ (now later : ℕ) (line : String) (d : RecentLines) (history : History) (l : now ≤ later)
    (r : Recalls now d history) where
  seen-Recalls :
      Recalls later
        (record d {
          recent_lines = insert line later d.recent_lines;
          dedup_call_count = suc d.dedup_call_count;
        })
        ((line, later) ∷ history)
  unfolding lookup
  seen-Recalls =
      let (map, known, came) = r in
      (
        IsMap-insert line later d.recent_lines map,
        (λ other. elim (Bool-cases (line == other)) [
          | inl e ↦ rw (lookup-insert line other later d.recent_lines, e) refl
          | inr e ↦
              rw (lookup-insert line other later d.recent_lines, e)
                (Matches-later now later d.dedup_window (lookup other d.recent_lines)
                  (lookup other history) l (known other))
        ]),
        (λ other. elim (Bool-cases (line == other)) [
          | inl e ↦ rw e (omega arith)
          | inr e ↦ rw e (Came-later now later (lookup other history) l (came other))
        ]),
      )

  answer : (is_duplicate_line d later line).1 ≡ is_recent later d.dedup_window (lookup line history)
  unfolding is_duplicate_line
  answer = ground (
    arith,
    is_recent-Matches now later d.dedup_window (lookup line d.recent_lines) (lookup line history) l
        (r.1 line) (r.2 line),
  )

  is_duplicate_line-Recalls :
      Recalls later (is_duplicate_line d later line).0 ((line, later) ∷ history)
  unfolding is_duplicate_line
  is_duplicate_line-Recalls =
      elim (Bool-cases (is_recent later d.dedup_window (lookup line d.recent_lines))) [
        | inl e ↦ rw e seen-Recalls
        | inr e ↦ rw e (clean-Recalls later _ ((line, later) ∷ history) seen-Recalls)
      ]

window-is_duplicate_line :
    (d : RecentLines) (now : ℕ) (line : String)
    → (is_duplicate_line d now line).0.dedup_window ≡ d.dedup_window
unfolding is_duplicate_line clean
window-is_duplicate_line d now line = ground arith

abbrev pub answers : RecentLines → List (ℕ × String) → List Bool
answers d [] = []
answers d ((now, line) ∷ calls) =
    (is_duplicate_line d now line).1 ∷ answers (is_duplicate_line d now line).0 calls

-- what it means to do: the last time of each line is known for good
abbrev pub ideal_answers : ℕ → History → List (ℕ × String) → List Bool
ideal_answers window history [] = []
ideal_answers window history ((now, line) ∷ calls) =
    is_recent now window (lookup line history) ∷ ideal_answers window ((line, now) ∷ history) calls

-- the clock never goes back
abbrev pub IsClock : ℕ → List (ℕ × String) → Type 0
IsClock now [] = Unit
IsClock now ((later, line) ∷ calls) = (now ≤ later) × IsClock later calls

answers_lem :
    (now window : ℕ) (d : RecentLines) (history : History) (calls : List (ℕ × String))
    → d.dedup_window ≡ window
    → IsClock now calls
    → Recalls now d history
    → answers d calls ≡ ideal_answers window history calls
answers_lem now window d history [] w clock r = refl
answers_lem now window d history ((later, line) ∷ calls) w clock r =
    let d' = (is_duplicate_line d later line).0 in
    let rest =
      answers_lem later window d' ((line, later) ∷ history) calls
        (window-is_duplicate_line d later line ∙ w) clock.1
        (is_duplicate_line-Recalls now later line d history clock.0 r) in
    ap (λ b. b ∷ answers d' calls)
      (answer now later line d history clock.0 r
        ∙ ap (λ k. is_recent later k (lookup line history)) w)
    ∙ ap (λ bs. is_recent later window (lookup line history) ∷ bs) rest

-- Where the clock does not go back, a new controller takes a line for a duplicate exactly if that
-- line came last less than 500 ms before, as if it never forgot a line.
pub answers-new :
    (calls : List (ℕ × String))
    → IsClock 0 calls
    → answers new calls ≡ ideal_answers new.dedup_window [] calls
unfolding lookup
answers-new calls clock =
    answers_lem 0 new.dedup_window new [] calls refl clock (tt, (λ line. tt), (λ line. tt))
