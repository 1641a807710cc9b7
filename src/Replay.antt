-- ===== src/Replay.antt =====
-- `check_replay` of src/common.h: the sliding window over the sequence numbers of a session.
-- The arrays and the out-parameters `highest` and `window` are the two fields of `Window`;
-- `true` stands for the return value 0, `false` for -1.
pub mod Shift
pub mod Digits
pub mod Refines
pub mod Runs
use lane_cove_tunnel.Prelude.{
  ℕ, zero, suc, ◌+◌, ◌-◌, ◌*◌, ◌/◌, ◌%◌, ◌^◌, bit_and, bit_or, Bool, true, false, ◌&&◌, List, ltb,
  leb, ◌==◌, if◌then◌else◌, get_or, set, replicate,
}

-- REPLAY_WINDOW_WORDS
abbrev pub replay_window_words : ℕ
replay_window_words = 32

-- REPLAY_WINDOW_WORDS * 64
abbrev pub window_size : ℕ
window_size = 2048

-- The wrap of `uint64_t`.
abbrev pub u64 : ℕ → ℕ
u64 n = n % 2 ^ 64

pub record Window : Type 0 where
  pub highest : ℕ
  pub words : List ℕ

-- A session begins with `recv_seq_highest = 0` and a window of zeros.
abbrev pub empty_window : Window
empty_window = record { highest = 0; words = replicate replay_window_words 0 }

-- The body of the `for` loop at index i: what is stored into `window[i]`. An index below 0 is
-- seen by the two tests, `lo_src >= 0` as `wn <= i` and `hi_src >= 0` as `wn < i`.
unfoldable pub shifted_word : ℕ → ℕ → List ℕ → ℕ → ℕ
shifted_word wn bn window i =
    let lo = if leb wn i then get_or window (i - wn) 0 else 0 in
    let hi = if ltb 0 bn && ltb wn i then get_or window (i - wn - 1) 0 else 0 in
    if ltb 0 bn then bit_or (u64 (lo * 2 ^ bn)) (hi / 2 ^ (64 - bn)) else lo

-- The loop itself, in place and downwards: `suc i` rounds are left when index i is next.
unfoldable pub shift_words : ℕ → ℕ → ℕ → List ℕ → List ℕ
shift_words wn bn zero window = window
shift_words wn bn (suc i) window = shift_words wn bn i (set window i (shifted_word wn bn window i))

-- Moving the window up by `diff`: cleared by `memset`, or shifted.
unfoldable pub advance : ℕ → List ℕ → List ℕ
advance diff window =
    if leb window_size diff
    then replicate replay_window_words 0
    else shift_words (diff / 64) (diff % 64) replay_window_words window

-- `window[word] |= 1ULL << bit`
unfoldable pub mark : ℕ → ℕ → List ℕ → List ℕ
mark word bit window = set window word (bit_or (get_or window word 0) (2 ^ bit))

-- `window[word] & (1ULL << bit)`, as a test
unfoldable pub is_marked : ℕ → ℕ → List ℕ → Bool
is_marked word bit window = ltb 0 (bit_and (get_or window word 0) (2 ^ bit))

unfoldable pub check_replay : ℕ → Window → Bool × Window
check_replay seq w =
    if ltb w.highest seq
    then (true, record { highest = seq; words = mark 0 0 (advance (seq - w.highest) w.words) })
    else (let diff = w.highest - seq in
        if leb window_size diff
        then (false, w)
        else if is_marked (diff / 64) (diff % 64) w.words
        then (false, w)
        else (true, record w { words = mark (diff / 64) (diff % 64) w.words }))
