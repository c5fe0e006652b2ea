-- ===== src/Supervisor/Simulator/Dedup.antt =====
-- pkg/supervisor/simulator.go, `isDuplicateLine`. Times are nanoseconds of the monotonic clock.
pub mod Recall
use dtvn.Prelude.{
  ℕ, suc, ◌+◌, ◌-◌, ◌*◌, ◌%◌, String, Bool, true, false, not, ◌==◌, Option, none, some, List, [],
  ◌∷◌, if◌then◌else◌, ltb, string_eq, nat_eq, filter,
}
use dtvn.Prelude.GoMap.{GoMap, lookup, insert}

pub record RecentLines : Type 0 where
  pub recent_lines : GoMap String ℕ
  pub dedup_window : ℕ
  pub dedup_call_count : ℕ

abbrev pub new : RecentLines
new = record { recent_lines = []; dedup_window = 500 * 1000000; dedup_call_count = 0 }

-- `exists && now.Sub(lastSeen) < s.dedupWindow`
abbrev pub is_recent : ℕ → ℕ → Option ℕ → Bool
is_recent now window none = false
is_recent now window (some last_seen) = ltb (now - last_seen) window

-- `timestamp.Before(now.Add(-2 * s.dedupWindow))`
abbrev pub is_stale : ℕ → ℕ → String × ℕ → Bool
is_stale now window (line, timestamp) = ltb (timestamp + 2 * window) now

-- the cleanup, at every hundredth call
unfoldable pub clean : RecentLines → ℕ → RecentLines
clean d now =
    if d.dedup_call_count % 100 == 0
    then record d {
      recent_lines = filter (λ e. not (is_stale now d.dedup_window e)) d.recent_lines;
    }
    else d

unfoldable pub is_duplicate_line : RecentLines → ℕ → String → RecentLines × Bool
unfolding clean
is_duplicate_line d now line =
    let seen = record d {
      recent_lines = insert line now d.recent_lines;
      dedup_call_count = suc d.dedup_call_count;
    } in
    if is_recent now d.dedup_window (lookup line d.recent_lines)
    then (seen, true)
    else (clean seen now, false)
