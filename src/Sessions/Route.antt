-- ===== src/Sessions/Route.antt =====
-- The loops of `route_lookup` (src/peer.c), in terms of the routes of the table.
use lane_cove_tunnel.Prelude.{
  ℕ, suc, ◌≤◌, ◌≡◌, ◌⊎◌, true, ◌&&◌, Option, none, some, inl, inr, List, [], ◌∷◌, arith, ltb,
  if◌then◌else◌, Option-cases, Bool-cases, sym, ◌∙◌,
}
use mathlib.Core.Path.{subst}
use native.Mathlib.Nat.{le_refl}
use lane_cove_tunnel.Node.{IpPrefix, Session}
use lane_cove_tunnel.Sessions.{
  route_match, Best, consider, route_lookup_in, route_lookup_from, route_lookup,
}

-- One of the routes has this length and matches the address.
abbrev pub Covers : ℕ → List IpPrefix → ℕ → Type 0
Covers ip [] len = ⊥
Covers ip (r ∷ routes) len =
    ((route_match ip r ≡ true) × (r.prefix_len ≡ len)) ⊎ Covers ip routes len

-- Session i of the table, counted from n on, is active and has such a route.
abbrev pub Serves : ℕ → ℕ → List Session → ℕ → ℕ → Type 0
Serves ip n [] i len = ⊥
Serves ip n (s ∷ sessions) i len =
    ((i ≡ n) × (s.active ≡ true) × Covers ip s.routes len) ⊎ Serves ip (suc n) sessions i len

-- `best` is at least as long as `len`.
abbrev AtLeast : ℕ → Best → Type 0
AtLeast len none = ⊥
AtLeast len (some (i, best)) = len ≤ best

-- One route: it takes the place of a shorter one.
module _ (ip i : ℕ) (r : IpPrefix) where
  consider-from :
      (best : Best) (j len : ℕ)
      → consider ip i r best ≡ some (j, len)
      → (best ≡ some (j, len)) ⊎ ((j ≡ i) × (route_match ip r ≡ true) × (r.prefix_len ≡ len))
  unfolding consider
  consider-from none j len h = ground arith
  consider-from (some b) j len h = ground arith

  consider-keeps : (best : Best) (len : ℕ) → AtLeast len best → AtLeast len (consider ip i r best)
  unfolding consider
  consider-keeps none len h = absurd h
  consider-keeps (some (j, best_prefix)) len h =
      elim (Bool-cases (route_match ip r && ltb best_prefix r.prefix_len)) [
        | inl longer ↦ rw longer (ground arith)
        | inr not_longer ↦ rw not_longer h
      ]

  consider-finds :
      (best : Best) → route_match ip r ≡ true → AtLeast r.prefix_len (consider ip i r best)
  unfolding consider
  consider-finds none h = rw h (le_refl _)
  consider-finds (some (j, best_prefix)) h = elim (Bool-cases (ltb best_prefix r.prefix_len)) [
    | inl longer ↦ rw (h, longer) (le_refl _)
    | inr not_longer ↦ rw (h, not_longer) (ground arith)
  ]

-- The inner loop keeps what was best or finds a route of session i, and misses none.
module _ (ip i : ℕ) where
  route_lookup_in-from :
      (routes : List IpPrefix) (best : Best) (j len : ℕ)
      → route_lookup_in ip i routes best ≡ some (j, len)
      → (best ≡ some (j, len)) ⊎ ((j ≡ i) × Covers ip routes len)
  unfolding route_lookup_in
  route_lookup_in-from [] best j len h = inl h
  route_lookup_in-from (r ∷ routes) best j len h =
      elim (route_lookup_in-from routes (consider ip i r best) j len h) [
        | inl taken ↦ elim (consider-from ip i r best j len taken) [
          | inl kept ↦ inl kept
          | inr (here, hit, size) ↦ inr (here, inl (hit, size))
        ]
        | inr (here, covers) ↦ inr (here, inr covers)
      ]

  route_lookup_in-keeps :
      (routes : List IpPrefix) (best : Best) (len : ℕ)
      → AtLeast len best
      → AtLeast len (route_lookup_in ip i routes best)
  unfolding route_lookup_in
  route_lookup_in-keeps [] best len h = h
  route_lookup_in-keeps (r ∷ routes) best len h =
      route_lookup_in-keeps routes (consider ip i r best) len (consider-keeps ip i r best len h)

  route_lookup_in-finds :
      (routes : List IpPrefix) (best : Best) (len : ℕ)
      → Covers ip routes len
      → AtLeast len (route_lookup_in ip i routes best)
  unfolding route_lookup_in
  route_lookup_in-finds [] best len h = absurd h
  route_lookup_in-finds (r ∷ routes) best len (inl (hit, size)) =
      route_lookup_in-keeps routes (consider ip i r best) len
        (subst (λ n. AtLeast n (consider ip i r best)) size (consider-finds ip i r best hit))
  route_lookup_in-finds (r ∷ routes) best len (inr covers) =
      route_lookup_in-finds routes (consider ip i r best) len covers

-- The outer loop likewise, over the active sessions.
visit : ℕ → ℕ → Session → Best → Best
visit ip n s best = if s.active then route_lookup_in ip n s.routes best else best

visit-from :
    (ip n : ℕ) (s : Session) (best : Best) (j len : ℕ)
    → visit ip n s best ≡ some (j, len)
    → (best ≡ some (j, len)) ⊎ ((j ≡ n) × (s.active ≡ true) × Covers ip s.routes len)
unfolding visit
visit-from ip n s best j len h = elim (Bool-cases s.active) [
  | inr asleep ↦ inl (rw asleep at h)
  | inl awake ↦ elim (route_lookup_in-from ip n s.routes best j len (rw awake at h)) [
    | inl kept ↦ inl kept
    | inr (here, covers) ↦ inr (here, awake, covers)
  ]
]

visit-keeps :
    (ip n : ℕ) (s : Session) (best : Best) (len : ℕ)
    → AtLeast len best
    → AtLeast len (visit ip n s best)
unfolding visit
visit-keeps ip n s best len h = elim (Bool-cases s.active) [
  | inr asleep ↦ rw asleep h
  | inl awake ↦ rw awake (route_lookup_in-keeps ip n s.routes best len h)
]

module _ (ip : ℕ) where
  pub route_lookup_from-from :
      (n : ℕ) (sessions : List Session) (best : Best) (j len : ℕ)
      → route_lookup_from ip n sessions best ≡ some (j, len)
      → (best ≡ some (j, len)) ⊎ Serves ip n sessions j len
  unfolding route_lookup_from visit
  route_lookup_from-from n [] best j len h = inl h
  route_lookup_from-from n (s ∷ sessions) best j len h =
      elim (route_lookup_from-from (suc n) sessions (visit ip n s best) j len h) [
        | inl taken ↦ elim (visit-from ip n s best j len taken) [
          | inl kept ↦ inl kept
          | inr here ↦ inr (inl here)
        ]
        | inr later ↦ inr (inr later)
      ]

  route_lookup_from-keeps :
      (n : ℕ) (sessions : List Session) (best : Best) (len : ℕ)
      → AtLeast len best
      → AtLeast len (route_lookup_from ip n sessions best)
  unfolding route_lookup_from visit
  route_lookup_from-keeps n [] best len h = h
  route_lookup_from-keeps n (s ∷ sessions) best len h =
      route_lookup_from-keeps (suc n) sessions (visit ip n s best) len
        (visit-keeps ip n s best len h)

  pub route_lookup_from-finds :
      (n : ℕ) (sessions : List Session) (best : Best) (j len : ℕ)
      → Serves ip n sessions j len
      → AtLeast len (route_lookup_from ip n sessions best)
  unfolding route_lookup_from visit
  route_lookup_from-finds n [] best j len h = absurd h
  route_lookup_from-finds n (s ∷ sessions) best j len (inl (here, awake, covers)) =
      route_lookup_from-keeps (suc n) sessions (visit ip n s best) len
        (rw awake (route_lookup_in-finds ip n s.routes best len covers))
  route_lookup_from-finds n (s ∷ sessions) best j len (inr later) =
      route_lookup_from-finds (suc n) sessions (visit ip n s best) j len later

pub AtLeast-some : (len i best : ℕ) (b : Best) → b ≡ some (i, best) → AtLeast len b → len ≤ best
AtLeast-some len i best b e h = rw e at h

pub AtLeast-none : (len : ℕ) (b : Best) → b ≡ none → AtLeast len b → ⊥
AtLeast-none len b e h = rw e at h

pub route_lookup-some :
    (ip : ℕ) (sessions : List Session) (i : ℕ)
    → route_lookup ip sessions ≡ some i
    → (len : ℕ) × (route_lookup_from ip 0 sessions none ≡ some (i, len))
unfolding route_lookup
route_lookup-some ip sessions i h = elim (Option-cases (route_lookup_from ip 0 sessions none)) [
  | inl nothing ↦
      let e : ◌≡◌ {A = Option ℕ} none (some i) = sym (rw (nothing, route_lookup)) ∙ h in
      absurd (cc e)
  | inr ((j, len), found) ↦
      let e : ◌≡◌ {A = Option ℕ} (some j) (some i) = sym (rw (found, route_lookup)) ∙ h in
      (len, found ∙ cc e)
]
