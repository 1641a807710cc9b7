-- ===== src/Tunnel/Slots.antt =====
-- The slots of pending handshakes (`pending_hs`, src/peer.c): which are free, and who is called.
use lane_cove_tunnel.Prelude.{
  ℕ, zero, suc, ◌+◌, ◌≤◌, ◌<◌, ◌≡◌, ◌≢◌, ap, sym, ◌∙◌, Bool, true, not, some, List, [], ◌∷◌, ◌++◌,
  get_or, set, get_or-set_ne, arith, Bool-cases, inl, inr, if◌then◌else◌, ◌⊎◌,
}
use lane_cove_tunnel.Prelude.Bytes.{Bytes}
use mathlib.Core.List.{append_assoc}
use lane_cove_tunnel.World.{Addr, Datagram}
use lane_cove_tunnel.Node.{PendingHs, zero_pending}
use lane_cove_tunnel.Sessions.{find_index}
use lane_cove_tunnel.Sessions.Find.{find_index-hit}

abbrev pub WasSent : Addr → List Datagram → Type 0
WasSent addr sent =
    (bytes : Bytes) × (newer : List Datagram) × (older : List Datagram) × (sent
      ≡ newer ++ record { to = addr; bytes = bytes } ∷ older)

abbrev pub Grown : List Datagram → List Datagram → Type 0
Grown sent sent' = (newer : List Datagram) × (sent' ≡ newer ++ sent)

Grown-WasSent :
    (addr : Addr) (sent sent' : List Datagram)
    → Grown sent sent'
    → WasSent addr sent
    → WasSent addr sent'
Grown-WasSent addr sent sent' (more, grown) (bytes, newer, older, h) = (
  bytes,
  more ++ newer,
  older,
  grown
      ∙ (ap (◌++◌ more) h
          ∙ sym (append_assoc more newer (record { to = addr; bytes = bytes } ∷ older))),
)

module _ {PKey : Type 0} where
  abbrev pub is_free : PendingHs PKey → Bool
  is_free p = not p.active

  -- How many slots are free.
  unfoldable pub count_free : List (PendingHs PKey) → ℕ
  count_free [] = 0
  count_free (p ∷ slots) = if p.active then count_free slots else suc (count_free slots)

  -- A handshake with the peer of configuration i is pending, and a datagram went to the address that
  -- the slot expects the response from.
  pub record IsCalling (i : ℕ) (slots : List (PendingHs PKey)) (sent : List Datagram) : Type 0 where
    pub place : ℕ
    pub active : (get_or slots place zero_pending).active ≡ true
    pub whom : (get_or slots place zero_pending).cfg_idx ≡ i
    pub asked : WasSent (get_or slots place zero_pending).server_addr sent

  pub free_slot :
      (slots : List (PendingHs PKey))
      → 0 < count_free slots
      → (place : ℕ) × (find_index is_free slots ≡ some place)
  unfolding count_free find_index
  free_slot [] h = absurd (omega arith)
  free_slot (p ∷ slots) h = elim (Bool-cases p.active) [
    | inr off ↦ (0, rw off)
    | inl on ↦
        let (place, found) = free_slot slots (ground (arith, h, on)) in (suc place, rw (on, found))
  ]

  count_free-set :
      (slots : List (PendingHs PKey)) (place : ℕ) (p : PendingHs PKey)
      → find_index is_free slots ≡ some place
      → count_free slots ≤ count_free (set slots place p) + 1
  unfolding count_free find_index
  count_free-set [] place p h = cc
  count_free-set (q ∷ slots) zero p h = ground arith
  count_free-set (q ∷ slots) (suc place) p h = ground (arith, count_free-set slots place p)

  IsCalling-set :
      (i place : ℕ) (slots : List (PendingHs PKey)) (p : PendingHs PKey) (sent : List Datagram)
      → find_index is_free slots ≡ some place
      → IsCalling i slots sent
      → IsCalling i (set slots place p) sent
  IsCalling-set i place slots p sent free calling =
      let open_place = (find_index-hit is_free zero_pending slots place free).1 in
      let apart : place ≢ calling.place = λ same.
        let taken : (get_or slots place zero_pending).active ≡ true = rw same calling.active in
        ground (arith, open_place, taken) in
      let same = get_or-set_ne slots place calling.place p zero_pending apart in
      record {
        place = calling.place;
        active = rw same calling.active;
        whom = rw same calling.whom;
        asked = rw same calling.asked;
      }

  -- The slots after one step: as before, or with one that was free filled.
  abbrev pub Filled : List (PendingHs PKey) → List (PendingHs PKey) → Type 0
  Filled slots slots' =
      (slots' ≡ slots)
      ⊎ ((place : ℕ) × (p : PendingHs PKey) × ((find_index is_free slots ≡ some place)
            × (slots' ≡ set slots place p)))

  Grown-IsCalling :
      (i : ℕ) (slots : List (PendingHs PKey)) (sent sent' : List Datagram)
      → Grown sent sent'
      → IsCalling i slots sent
      → IsCalling i slots sent'
  Grown-IsCalling i slots sent sent' grown calling = record {
    place = calling.place;
    active = calling.active;
    whom = calling.whom;
    asked = Grown-WasSent _ sent sent' grown calling.asked;
  }

  pub Filled-IsCalling :
      (i : ℕ) (slots slots' : List (PendingHs PKey)) (sent sent' : List Datagram)
      → Filled slots slots'
      → Grown sent sent'
      → IsCalling i slots sent
      → IsCalling i slots' sent'
  Filled-IsCalling i slots slots' sent sent' (inl same) grown calling =
      rw same (Grown-IsCalling i slots sent sent' grown calling)
  Filled-IsCalling i slots slots' sent sent' (inr (place, p, (free, same))) grown calling =
      rw same
        (Grown-IsCalling i _ sent sent' grown (IsCalling-set i place slots p sent free calling))

  pub Filled-count_free :
      (slots slots' : List (PendingHs PKey))
      → Filled slots slots'
      → count_free slots ≤ count_free slots' + 1
  Filled-count_free slots slots' (inl same) = rw same (omega arith)
  Filled-count_free slots slots' (inr (place, p, (free, same))) =
      rw same (count_free-set slots place p free)
