-- ===== src/Replay/Refines.antt =====
-- `check_replay` against its contract: a log of the sequence numbers accepted so far.
use native.Mathlib.Nat.{one-le-pow}
use Prim.Native.Nat.{max}
use lane_cove_tunnel.Prelude.{
  ℕ, ◌+◌, ◌-◌, ◌/◌, ◌%◌, ◌≤◌, ◌<◌, ◌≡◌, refl, List, [], ◌∷◌, ltb, ◌==◌, Bool, true, false, not,
  ◌&&◌, ◌||◌, if◌then◌else◌, get_or, arith, ap,
}
use lane_cove_tunnel.Prelude.Bits.{bit-le, bit_and-one-shl}
use lane_cove_tunnel.Replay.{
  Window, empty_window, window_size, advance, mark, is_marked, check_replay,
}
use lane_cove_tunnel.Replay.Shift.{window_bit, IsWords}
use lane_cove_tunnel.Replay.Digits.{
  advance-IsWords, window_bit-advance, mark-IsWords, window_bit-mark, zeros-IsWords,
  window_bit-zeros,
}

-- `n` stands in the log.
unfoldable pub mem : ℕ → List ℕ → Bool
mem n [] = false
mem n (x ∷ xs) = n == x || mem n xs

unfoldable pub maximum : List ℕ → ℕ
maximum [] = 0
maximum (x ∷ xs) = max x (maximum xs)

-- The contract: a number is accepted if it is new and less than 2048 behind the highest accepted.
unfoldable pub fresh : List ℕ → ℕ → Bool
unfolding mem maximum
fresh log seq = ltb (maximum log) (seq + window_size) && not (mem seq log)

-- The window records the log, as far back as it reaches.
pub record Tracks (w : Window) (log : List ℕ) : Type 0 where
  pub words_ok : IsWords w.words
  pub top : w.highest ≡ maximum log
  pub recorded :
      (j : ℕ)
      → j < window_size
      → j ≤ w.highest
      → window_bit w.words j ≡ (if mem (w.highest - j) log then 1 else 0)

pub empty-Tracks : Tracks empty_window []
unfolding mem maximum
empty-Tracks = record {
  words_ok = zeros-IsWords;
  top = refl;
  recorded = λ j p q. window_bit-zeros j;
}

mem-le-maximum : (n : ℕ) (log : List ℕ) → maximum log < n → mem n log ≡ false
unfolding mem maximum
mem-le-maximum n [] h = refl
mem-le-maximum n (x ∷ xs) h = ground (arith, mem-le-maximum n xs)

-- The test of the code reads one digit of the window.
is_marked-window_bit :
    (j : ℕ) (words : List ℕ)
    → is_marked (j / 64) (j % 64) words ≡ (if window_bit words j == 1 then true else false)
unfolding is_marked
is_marked-window_bit j words = ground (
  arith,
  bit_and-one-shl (j % 64) (get_or words (j / 64) 0),
  bit-le (get_or words (j / 64) 0) (j % 64),
  one-le-pow (j % 64) 2,
)

module _ (seq : ℕ) (w : Window) (log : List ℕ) (t : Tracks w log) where
  same_number :
      (j : ℕ)
      → seq - w.highest ≤ j
      → j ≤ seq
      → w.highest < seq
      → mem (w.highest - (j - (seq - w.highest))) log ≡ mem (seq - j) log
  same_number j p q h =
      let e : w.highest - (j - (seq - w.highest)) ≡ seq - j = omega arith in
      ap (λ (n : ℕ). mem n log) e

  -- A number beyond the highest moves the window up.
  advanced-Tracks :
      w.highest < seq
      → Tracks
          (record { highest = seq; words = mark 0 0 (advance (seq - w.highest) w.words) })
          (seq ∷ log)
  unfolding mem maximum
  advanced-Tracks h =
      let diff : ℕ = seq - w.highest in
      let moved : IsWords (advance diff w.words) = advance-IsWords diff w.words t.words_ok in
      record {
        words_ok = mark-IsWords 0 0 (advance diff w.words) moved (omega arith) (omega arith);
        top = omega (arith, t.top);
        recorded = λ j p q. ground (
          arith,
          t.top,
          window_bit-mark 0 0 (advance diff w.words) moved (omega arith) (omega arith) j,
          window_bit-advance diff w.words t.words_ok j p,
          mem-le-maximum (seq - j) log,
          t.recorded (j - diff),
          same_number j,
        );
      }

  -- A number within the window is marked.
  marked-Tracks :
      seq ≤ w.highest
      → w.highest - seq < window_size
      → Tracks
          (record w { words = mark ((w.highest - seq) / 64) ((w.highest - seq) % 64) w.words })
          (seq ∷ log)
  unfolding mem maximum
  marked-Tracks h near =
      let diff : ℕ = w.highest - seq in
      record {
        words_ok =
            mark-IsWords (diff / 64) (diff % 64) w.words t.words_ok (omega arith) (omega arith);
        top = omega (arith, t.top);
        recorded = λ j p q. ground (
          arith,
          window_bit-mark (diff / 64) (diff % 64) w.words t.words_ok (omega arith) (omega arith) j,
          t.recorded j p q,
        );
      }

-- `check_replay` accepts exactly the numbers that its contract accepts, and the window it leaves
-- records the log with an accepted number added, and the unchanged log otherwise.
pub check_replay-refines :
    (seq : ℕ) (w : Window) (log : List ℕ)
    → Tracks w log
    → let (accepted, w') = check_replay seq w in
      (accepted ≡ fresh log seq) × Tracks w' (if accepted then seq ∷ log else log)
unfolding check_replay fresh
check_replay-refines seq w log t = ground (
  arith,
  t.top,
  mem-le-maximum seq log,
  advanced-Tracks seq w log t,
  marked-Tracks seq w log t,
  is_marked-window_bit (w.highest - seq) w.words,
  t.recorded (w.highest - seq),
)
