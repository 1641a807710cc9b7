-- ===== src/Replay/Runs.antt =====
-- A session's whole history of calls of `check_replay` (src/common.h), from the empty window on.
use lane_cove_tunnel.Prelude.{
  ℕ, ◌+◌, ◌≤◌, ◌<◌, ◌≡◌, refl, List, [], ◌∷◌, true, false, if◌then◌else◌, arith,
}
use lane_cove_tunnel.Replay.{Window, empty_window, window_size, check_replay}
use lane_cove_tunnel.Replay.Refines.{
  mem, maximum, fresh, Tracks, empty-Tracks, check_replay-refines,
}

-- The sequence numbers accepted in a row of arrivals, the latest first, on top of a log.
unfoldable pub deliver : List ℕ → Window → List ℕ → List ℕ
deliver [] w log = log
deliver (seq ∷ rest) w log =
    let (accepted, w') = check_replay seq w in deliver rest w' (if accepted then seq ∷ log else log)

-- No number stands twice.
abbrev pub IsDistinct : List ℕ → Type 0
IsDistinct [] = Unit {0}
IsDistinct (x ∷ xs) = (mem x xs ≡ false) × IsDistinct xs

deliver-IsDistinct :
    (arrivals : List ℕ) (w : Window) (log : List ℕ)
    → Tracks w log
    → IsDistinct log
    → IsDistinct (deliver arrivals w log)
unfolding deliver fresh
deliver-IsDistinct [] w log t d = d
deliver-IsDistinct (seq ∷ rest) w log t d =
    let step = check_replay-refines seq w log t in
    deliver-IsDistinct rest (check_replay seq w).1 _ step.1 (ground (arith, step.0))

-- Whatever arrives, in whatever order and however often, no sequence number is accepted twice.
pub accepted_once : (arrivals : List ℕ) → IsDistinct (deliver arrivals empty_window [])
accepted_once arrivals = deliver-IsDistinct arrivals empty_window [] empty-Tracks tt

-- All of a list lie in the `window_size` numbers from `lo` on.
abbrev pub IsWithin : ℕ → List ℕ → Type 0
IsWithin lo [] = Unit {0}
IsWithin lo (x ∷ xs) = (lo ≤ x) × (x < lo + window_size) × IsWithin lo xs

maximum-lt :
    (bound lo : ℕ) (log : List ℕ) → IsWithin lo log → lo + window_size ≡ bound → maximum log < bound
unfolding maximum
maximum-lt bound lo [] h e = omega arith
maximum-lt bound lo (x ∷ log) h e = omega (arith, maximum-lt bound lo log h.2)

-- None of the arrivals is repeated, nor stands in the log.
abbrev pub IsNew : List ℕ → List ℕ → Type 0
IsNew [] log = Unit {0}
IsNew (x ∷ xs) log = (mem x log ≡ false) × IsNew xs (x ∷ log)

-- The arrivals as a log, the latest first.
abbrev pub onto : List ℕ → List ℕ → List ℕ
onto [] log = log
onto (x ∷ xs) log = onto xs (x ∷ log)

deliver-all :
    (lo : ℕ) (arrivals : List ℕ) (w : Window) (log : List ℕ)
    → Tracks w log
    → IsWithin lo log
    → IsWithin lo arrivals
    → IsNew arrivals log
    → deliver arrivals w log ≡ onto arrivals log
unfolding deliver fresh
deliver-all lo [] w log t inside within new = refl
deliver-all lo (seq ∷ rest) w log t inside within new =
    let step = check_replay-refines seq w log t in
    let accepted : (check_replay seq w).0 ≡ true =
      ground (arith, step.0, maximum-lt (lo + window_size) lo log inside) in
    rw accepted (
      deliver-all lo rest (check_replay seq w).1 (seq ∷ log) (rw accepted at step.1)
        (within.0, within.1, inside) within.2 new.1)

-- Distinct numbers that lie within 2048 of one another are all accepted, in any order.
pub nothing_dropped :
    (lo : ℕ) (arrivals : List ℕ)
    → IsWithin lo arrivals
    → IsNew arrivals []
    → deliver arrivals empty_window [] ≡ onto arrivals []
nothing_dropped lo arrivals within new =
    deliver-all lo arrivals empty_window [] empty-Tracks tt within new
