-- ===== src/Tests/Windows.antt =====
-- Hexadecimal numbers and the replay window.
use lane_cove_tunnel.Prelude.{◌≡◌, refl, some, [], ◌∷◌, arith, if◌then◌else◌}
use lane_cove_tunnel.Prelude.Bytes.{Bytes, IsBytes}
use lane_cove_tunnel.Hex.{bytes_to_hex, hex_to_bytes}
use lane_cove_tunnel.Hex.RoundTrip.{hex_to_bytes-bytes_to_hex}
use lane_cove_tunnel.Replay.{
  empty_window, check_replay, advance, shift_words, shifted_word, mark, is_marked,
}
use lane_cove_tunnel.Replay.Refines.{fresh, mem, Tracks, empty-Tracks, check_replay-refines}
use lane_cove_tunnel.Replay.Runs.{IsDistinct, IsNew, deliver, accepted_once, nothing_dropped}

abbrev dead_beef : Bytes
dead_beef = 0xde ∷ 0xad ∷ 0xbe ∷ 0xef ∷ []

dead_beef-IsBytes : IsBytes dead_beef
dead_beef-IsBytes = (omega arith, (omega arith, (omega arith, (omega arith, tt))))

hex_to_bytes-bytes_to_hex_example : hex_to_bytes (bytes_to_hex dead_beef) 4 ≡ some dead_beef
hex_to_bytes-bytes_to_hex_example = hex_to_bytes-bytes_to_hex dead_beef dead_beef-IsBytes

check_replay-refines_example :
    ((check_replay 5 empty_window).0 ≡ fresh [] 5)
    × Tracks
        (check_replay 5 empty_window).1
        (if (check_replay 5 empty_window).0 then 5 ∷ [] else [])
check_replay-refines_example = check_replay-refines 5 empty_window [] empty-Tracks

accepted_once_example : IsDistinct (deliver (5 ∷ 5 ∷ 3 ∷ 2060 ∷ 3 ∷ []) empty_window [])
accepted_once_example = accepted_once (5 ∷ 5 ∷ 3 ∷ 2060 ∷ 3 ∷ [])

three-IsNew : IsNew (3 ∷ 1 ∷ 2 ∷ []) []
unfolding mem
three-IsNew = (refl, (refl, (refl, tt)))

nothing_dropped_example : deliver (3 ∷ 1 ∷ 2 ∷ []) empty_window [] ≡ 2 ∷ 1 ∷ 3 ∷ []
nothing_dropped_example =
    nothing_dropped 0 (3 ∷ 1 ∷ 2 ∷ [])
      (omega arith, omega arith, (omega arith, omega arith, (omega arith, omega arith, tt)))
      three-IsNew

-- test_check_replay of the unit tests: a duplicate, an old number, a late one.
repeated : deliver (1 ∷ 1 ∷ []) empty_window [] ≡ 1 ∷ []
unfolding deliver check_replay advance shift_words shifted_word mark is_marked
repeated = refl

too_old : deliver (3000 ∷ 900 ∷ 1000 ∷ []) empty_window [] ≡ 1000 ∷ 3000 ∷ []
unfolding deliver check_replay advance shift_words shifted_word mark is_marked
too_old = refl
