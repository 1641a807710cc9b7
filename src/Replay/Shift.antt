-- ===== src/Replay/Shift.antt =====
-- What the window's loop and its marks do to each of the 2048 digits.
use lane_cove_tunnel.Prelude.{
  ℕ, zero, suc, ◌+◌, ◌-◌, ◌*◌, ◌/◌, ◌%◌, ◌^◌, ◌≤◌, ◌<◌, ◌≡◌, refl, List, ltb, leb, if◌then◌else◌,
  get_or, set, length, length-set, get_or-set_self, get_or-set_ne, arith, ap, ◌∙◌, bit_or, Bool,
  sym,
}
use native.Mathlib.Nat.{div-le_self}
use lane_cove_tunnel.Prelude.Bits.{
  bit, bit-bit_or, bit-mod, bit-shl_low, bit-shl_high, bit-shr, bit_above, bit_or-lt, bit-zero,
}
use lane_cove_tunnel.Replay.{u64, shifted_word, shift_words}

-- Digit j of the window, which stands for the sequence number `highest - j`.
abbrev pub window_bit : List ℕ → ℕ → ℕ
window_bit window j = bit (get_or window (j / 64) 0) (j % 64)

-- Thirty-two words of 64 digits.
pub record IsWords (window : List ℕ) : Type 0 where
  pub size : length window ≡ 32
  pub below : (i : ℕ) → get_or window i 0 < 2 ^ 64

-- The loop body reads at or below its own index, so a write above changes nothing.
shifted_word-set :
    (wn bn : ℕ) (window : List ℕ) (i j v : ℕ)
    → j < i
    → shifted_word wn bn (set window i v) j ≡ shifted_word wn bn window j
unfolding shifted_word
shifted_word-set wn bn window i j v h =
    ground (arith, get_or-set_ne window i (j - wn) v 0, get_or-set_ne window i (j - wn - 1) v 0)

-- In place and downwards is as good as all at once.
pub shift_words-get :
    (wn bn n : ℕ) (window : List ℕ) (j : ℕ)
    → n ≤ length window
    → get_or (shift_words wn bn n window) j 0
      ≡ (if ltb j n then shifted_word wn bn window j else get_or window j 0)
unfolding shift_words
shift_words-get wn bn zero window j h = ground arith
shift_words-get wn bn (suc n) window j h = ground (
  arith,
  shift_words-get wn bn n (set window n (shifted_word wn bn window n)) j,
  length-set window n (shifted_word wn bn window n),
  shifted_word-set wn bn window n j (shifted_word wn bn window n),
  get_or-set_self window n (shifted_word wn bn window n) 0,
  get_or-set_ne window n j (shifted_word wn bn window n) 0,
)

pub length-shift_words :
    (wn bn n : ℕ) (window : List ℕ) → length (shift_words wn bn n window) ≡ length window
unfolding shift_words
length-shift_words wn bn zero window = refl
length-shift_words wn bn (suc n) window =
    length-shift_words wn bn n (set window n (shifted_word wn bn window n)) ∙ length-set window n _

-- The two halves of a new word: from digit bn on the lower source, below it the upper one.
combine : ℕ → ℕ → ℕ → ℕ
combine bn lo hi = bit_or (u64 (lo * 2 ^ bn)) (hi / 2 ^ (64 - bn))

combine-high :
    (bn k lo hi : ℕ)
    → bn < 64
    → k < 64
    → bn ≤ k
    → hi < 2 ^ 64
    → bit (combine bn lo hi) k ≡ bit lo (k - bn)
unfolding combine
combine-high bn k lo hi hb hk le fits =
    let there : bn + (k - bn) ≡ k = omega arith in
    let lower : bit (u64 (lo * 2 ^ bn)) k ≡ bit lo (k - bn) =
      bit-mod 64 k (lo * 2 ^ bn) hk
      ∙ ap (bit (lo * 2 ^ bn)) (sym there)
      ∙ bit-shl_high bn (k - bn) lo in
    let upper : bit (hi / 2 ^ (64 - bn)) k ≡ 0 =
      bit-shr (64 - bn) k hi ∙ bit_above 64 (64 - bn + k) hi fits (omega arith) in
    omega (arith, bit-bit_or k (u64 (lo * 2 ^ bn)) (hi / 2 ^ (64 - bn)), lower, upper)

combine-low : (bn k lo hi : ℕ) → bn < 64 → k < bn → bit (combine bn lo hi) k ≡ bit hi (64 + k - bn)
unfolding combine
combine-low bn k lo hi hb lt =
    let lower : bit (u64 (lo * 2 ^ bn)) k ≡ 0 =
      bit-mod 64 k (lo * 2 ^ bn) (omega arith) ∙ bit-shl_low bn k lo lt in
    let there : 64 - bn + k ≡ 64 + k - bn = omega arith in
    let upper : bit (hi / 2 ^ (64 - bn)) k ≡ bit hi (64 + k - bn) =
      bit-shr (64 - bn) k hi ∙ ap (bit hi) there in
    omega (arith, bit-bit_or k (u64 (lo * 2 ^ bn)) (hi / 2 ^ (64 - bn)), lower, upper)

combine-lt : (bn lo hi : ℕ) → hi < 2 ^ 64 → combine bn lo hi < 2 ^ 64
unfolding combine
combine-lt bn lo hi fits =
    bit_or-lt 64 (u64 (lo * 2 ^ bn)) (hi / 2 ^ (64 - bn)) (omega arith)
      (omega (arith, div-le_self hi (2 ^ (64 - bn))))

-- The sources of a new word, 0 where the index would be negative.
source : List ℕ → Bool → ℕ → ℕ
source window test i = if test then get_or window i 0 else 0

shifted_word_cases :
    (wn bn i : ℕ) (window : List ℕ)
    → shifted_word wn bn window i ≡ (
        if ltb 0 bn
        then combine bn (source window (leb wn i) (i - wn)) (source window (ltb wn i) (i - wn - 1))
        else source window (leb wn i) (i - wn))
unfolding shifted_word combine source
shifted_word_cases wn bn i window = ground arith

source-lt : (window : List ℕ) (test : Bool) (i : ℕ) → IsWords window → source window test i < 2 ^ 64
unfolding source
source-lt window test i ok = ground (arith, ok.below i)

pub shifted_word-lt :
    (wn bn i : ℕ) (window : List ℕ) → IsWords window → shifted_word wn bn window i < 2 ^ 64
shifted_word-lt wn bn i window ok = ground (
  arith,
  shifted_word_cases wn bn i window,
  source-lt window (leb wn i) (i - wn) ok,
  source-lt window (ltb wn i) (i - wn - 1) ok,
  combine-lt bn (source window (leb wn i) (i - wn)) (source window (ltb wn i) (i - wn - 1)),
)

window_bit-at :
    (window : List ℕ) (p a b : ℕ)
    → p ≡ 64 * a + b
    → b < 64
    → window_bit window p ≡ bit (get_or window a 0) b
window_bit-at window p a b e h =
    let word : p / 64 ≡ a = omega arith in let digit : p % 64 ≡ b = omega arith in rw (word, digit)

-- Digit k of the new word i: digit 64 * i + k - d of the old window, where d = 64 * wn + bn.
module _ (wn bn i k : ℕ) (window : List ℕ) (hb : bn < 64) (hk : k < 64) (ok : IsWords window) where
  pub shifted_word-below : 64 * i + k < 64 * wn + bn → bit (shifted_word wn bn window i) k ≡ 0
  unfolding source
  shifted_word-below lt = ground (
    arith,
    shifted_word_cases wn bn i window,
    combine-high bn k (source window (leb wn i) (i - wn)) (source window (ltb wn i) (i - wn - 1)),
    combine-low bn k (source window (leb wn i) (i - wn)) (source window (ltb wn i) (i - wn - 1)),
    source-lt window (ltb wn i) (i - wn - 1) ok,
    bit-zero k,
    bit-zero (k - bn),
    bit-zero (64 + k - bn),
  )

  pub shifted_word-above :
      64 * wn + bn ≤ 64 * i + k
      → bit (shifted_word wn bn window i) k ≡ window_bit window (64 * i + k - (64 * wn + bn))
  unfolding source
  shifted_word-above le = ground (
    arith,
    shifted_word_cases wn bn i window,
    combine-high bn k (source window (leb wn i) (i - wn)) (source window (ltb wn i) (i - wn - 1)),
    combine-low bn k (source window (leb wn i) (i - wn)) (source window (ltb wn i) (i - wn - 1)),
    source-lt window (ltb wn i) (i - wn - 1) ok,
    window_bit-at window (64 * i + k - (64 * wn + bn)) (i - wn) (k - bn),
    window_bit-at window (64 * i + k - (64 * wn + bn)) (i - wn - 1) (64 + k - bn),
  )
