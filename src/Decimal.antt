-- ===== src/Decimal.antt =====
-- Numbers as `printf` writes them, for `resolve_endpoint` and the log lines of src/peer.c.
pub mod RoundTrip
use lane_cove_tunnel.Prelude.{ℕ, zero, suc, ◌+◌, ◌/◌, ◌%◌, ◌∷◌, [], ltb, if◌then◌else◌}
use lane_cove_tunnel.Prelude.Bytes.{Bytes}

-- `%d`, from the last digit on; the fuel is more than there are digits.
unfoldable pub digits : ℕ → ℕ → Bytes → Bytes
digits zero n acc = acc
digits (suc fuel) n acc =
    let rest = digits fuel (n / 10) ((b'0' + n % 10) ∷ acc) in
    if ltb n 10 then (b'0' + n % 10) ∷ acc else rest

unfoldable pub decimal : ℕ → Bytes
decimal n = digits (suc n) n []
