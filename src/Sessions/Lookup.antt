-- ===== src/Sessions/Lookup.antt =====
-- What `route_lookup` and `check_allowed_src` find, in terms of the routes of the table.
use lane_cove_tunnel.Prelude.{
  ℕ, ◌≤◌, ◌≡◌, ◌↔◌, ◌⊎◌, refl, true, Option, none, some, inl, inr, List, [], ◌∷◌, arith,
  Option-cases, Bool-cases, sym, ◌∙◌,
}
use lane_cove_tunnel.Node.{IpPrefix, Session}
use lane_cove_tunnel.Sessions.{
  route_match, route_lookup_from, route_lookup, any_route, check_allowed_src,
}
use lane_cove_tunnel.Sessions.Route.{
  Covers, Serves, route_lookup-some, AtLeast-some, AtLeast-none, route_lookup_from-from,
  route_lookup_from-finds,
}

-- Session i has a matching route that no session of the table beats.
pub record IsLongest (ip : ℕ) (sessions : List Session) (i : ℕ) : Type 0 where
  pub len : ℕ
  pub serves : Serves ip 0 sessions i len
  pub longest : (j other : ℕ) → Serves ip 0 sessions j other → other ≤ len

-- The session that `route_lookup` returns is active and has a route that matches the address, and
-- no active session has a matching route with a longer prefix.
pub route_lookup-IsLongest :
    (ip : ℕ) (sessions : List Session) (i : ℕ)
    → route_lookup ip sessions ≡ some i
    → IsLongest ip sessions i
route_lookup-IsLongest ip sessions i h =
    let (len, found) = route_lookup-some ip sessions i h in
    record {
      len = len;
      serves = elim (route_lookup_from-from ip 0 sessions none i len found) [
        | inl never ↦ absurd (cc never)
        | inr serves ↦ serves
      ];
      longest = λ j other serves.
          AtLeast-some other i len _ found
            (route_lookup_from-finds ip 0 sessions none j other serves);
    }

-- No active session has a matching route.
abbrev pub IsUnserved : ℕ → List Session → Type 0
IsUnserved ip sessions = (j len : ℕ) → ¬ Serves ip 0 sessions j len

unserved :
    (ip : ℕ) (sessions : List Session) → route_lookup ip sessions ≡ none → IsUnserved ip sessions
unfolding route_lookup
unserved ip sessions h j len serves = elim (Option-cases (route_lookup_from ip 0 sessions none)) [
  | inl nothing ↦
      AtLeast-none len _ nothing (route_lookup_from-finds ip 0 sessions none j len serves)
  | inr ((i, best), found) ↦
      let e : ◌≡◌ {A = Option ℕ} (some i) none = sym (rw (found, route_lookup)) ∙ h in cc e
]

-- `route_lookup` returns NULL exactly where no active session has a route that matches the address.
pub route_lookup-none :
    (ip : ℕ) (sessions : List Session) → route_lookup ip sessions ≡ none ↔ IsUnserved ip sessions
route_lookup-none ip sessions = (
  unserved ip sessions,
  λ h. elim (Option-cases (route_lookup ip sessions)) [
    | inl e ↦ e
    | inr (i, e) ↦
        let best = route_lookup-IsLongest ip sessions i e in absurd (h i best.len best.serves)
  ],
)

any_route-Covers :
    (ip : ℕ) (routes : List IpPrefix)
    → any_route ip routes ≡ true
    → (len : ℕ) × Covers ip routes len
any_route-Covers ip [] h = absurd (cc h)
any_route-Covers ip (r ∷ routes) h = elim (Bool-cases (route_match ip r)) [
  | inl hit ↦ (r.prefix_len, inl (hit, refl))
  | inr miss ↦ let (len, covers) = any_route-Covers ip routes (rw miss at h) in (len, inr covers)
]

Covers-any_route :
    (ip : ℕ) (routes : List IpPrefix) (len : ℕ) → Covers ip routes len → any_route ip routes ≡ true
Covers-any_route ip [] len h = absurd h
Covers-any_route ip (r ∷ routes) len (inl (hit, size)) = rw hit
Covers-any_route ip (r ∷ routes) len (inr covers) =
    ground (arith, Covers-any_route ip routes len covers)

-- A source address passes exactly when the session has no routes at all or one that matches.
pub check_allowed_src_iff :
    (routes : List IpPrefix) (src_ip : ℕ)
    → check_allowed_src routes src_ip ≡ true
      ↔ (routes ≡ [] ⊎ ((len : ℕ) × Covers src_ip routes len))
unfolding check_allowed_src
check_allowed_src_iff [] src_ip = (λ _. inl refl, λ _. refl)
check_allowed_src_iff (r ∷ routes) src_ip = (
  λ h. inr (any_route-Covers src_ip (r ∷ routes) (ground arith)),
  λ h. elim h [
    | inl never ↦ cc never
    | inr (len, covers) ↦ ground (arith, Covers-any_route src_ip (r ∷ routes) len covers)
  ],
)
