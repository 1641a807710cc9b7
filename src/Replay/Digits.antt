-- ===== src/Replay/Digits.antt =====
-- The two writes of `check_replay`, `advance` and `mark`, digit by digit.
use native.Mathlib.Nat.{pow-le-pow_right}
use lane_cove_tunnel.Prelude.{
  ℕ, ◌+◌, ◌-◌, ◌*◌, ◌/◌, ◌%◌, ◌^◌, ◌≤◌, ◌<◌, ◌≡◌, refl, inl, inr, List, ltb, leb, ◌==◌,
  if◌then◌else◌, get_or, length-set, get_or-set_self, get_or-set_ne, Bool-cases, arith, ◌∙◌, bit_or,
  replicate, get_or-replicate,
}
use lane_cove_tunnel.Prelude.Bits.{
  bit-bit_or, bit-le, bit-one-shl_self, bit-one-shl_ne, bit_or-lt, bit-zero,
}
use lane_cove_tunnel.Replay.{shift_words, advance, mark, window_size, replay_window_words}
use lane_cove_tunnel.Replay.Shift.{
  window_bit, IsWords, shift_words-get, length-shift_words, shifted_word-lt, shifted_word-below,
  shifted_word-above,
}

-- The window after `advance`: zeros below `diff`, and from there on the old digits.
module _ (diff : ℕ) (window : List ℕ) (ok : IsWords window) where
  shift_words-IsWords : IsWords (shift_words (diff / 64) (diff % 64) 32 window)
  shift_words-IsWords = record {
    size = length-shift_words (diff / 64) (diff % 64) 32 window ∙ ok.size;
    below = λ i. ground (
      arith,
      ok.below i,
      ok.size,
      shift_words-get (diff / 64) (diff % 64) 32 window i,
      shifted_word-lt (diff / 64) (diff % 64) i window ok,
    );
  }

  window_bit-shift_words :
      (j : ℕ)
      → j < window_size
      → window_bit (shift_words (diff / 64) (diff % 64) 32 window) j
        ≡ (if ltb j diff then 0 else window_bit window (j - diff))
  window_bit-shift_words j h = ground (
    arith,
    ok.size,
    shift_words-get (diff / 64) (diff % 64) 32 window (j / 64),
    shifted_word-below (diff / 64) (diff % 64) (j / 64) (j % 64) window,
    shifted_word-above (diff / 64) (diff % 64) (j / 64) (j % 64) window,
  )

pub zeros-IsWords : IsWords (replicate replay_window_words 0)
zeros-IsWords = record {
  size = refl;
  below = λ i. rw (get_or-replicate {A = ℕ} replay_window_words i 0) (omega arith);
}

pub window_bit-zeros : (j : ℕ) → window_bit (replicate replay_window_words 0) j ≡ 0
window_bit-zeros j =
    rw (get_or-replicate {A = ℕ} replay_window_words (j / 64) 0) (bit-zero (j % 64))

module _ (diff : ℕ) (window : List ℕ) (ok : IsWords window) where
  pub advance-IsWords : IsWords (advance diff window)
  unfolding advance
  advance-IsWords = elim (Bool-cases (leb window_size diff)) [
    | inl far ↦ rw far zeros-IsWords
    | inr near ↦ rw near (shift_words-IsWords diff window ok)
  ]

  pub window_bit-advance :
      (j : ℕ)
      → j < window_size
      → window_bit (advance diff window) j
        ≡ (if ltb j diff then 0 else window_bit window (j - diff))
  unfolding advance
  window_bit-advance j h = elim (Bool-cases (leb window_size diff)) [
    | inl far ↦ rw far (ground (arith, window_bit-zeros j))
    | inr near ↦ rw near (window_bit-shift_words diff window ok j h)
  ]

-- A mark sets the digit it names and no other.
module _ (word digit : ℕ) (window : List ℕ) (ok : IsWords window) (hw : word < 32)
    (hd : digit < 64) where
  one-shl-lt : 2 ^ digit < 2 ^ 64
  one-shl-lt =
      let top : 2 ^ digit ≤ 2 ^ 63 =
        pow-le-pow_right {n = 2} (omega arith) {j = 63} (omega arith) in
      omega (arith, top)

  pub mark-IsWords : IsWords (mark word digit window)
  unfolding mark
  mark-IsWords = record {
    size = length-set window word _ ∙ ok.size;
    below = λ i. ground (
      arith,
      ok.below i,
      ok.size,
      bit_or-lt 64 (get_or window word 0) (2 ^ digit) (ok.below word) one-shl-lt,
      get_or-set_self window word (bit_or (get_or window word 0) (2 ^ digit)) 0,
      get_or-set_ne window word i (bit_or (get_or window word 0) (2 ^ digit)) 0,
    );
  }

  pub window_bit-mark :
      (j : ℕ)
      → window_bit (mark word digit window) j
        ≡ (if j == 64 * word + digit then 1 else window_bit window j)
  unfolding mark
  window_bit-mark j = ground (
    arith,
    ok.size,
    get_or-set_self window word (bit_or (get_or window word 0) (2 ^ digit)) 0,
    get_or-set_ne window word (j / 64) (bit_or (get_or window word 0) (2 ^ digit)) 0,
    bit-bit_or (j % 64) (get_or window word 0) (2 ^ digit),
    bit-le (get_or window word 0) (j % 64),
    bit-one-shl_self digit,
    bit-one-shl_ne digit (j % 64),
  )
