-- ===== src/Tunnel/Lookup.antt =====
-- A session that is written back with its key, its address and its routes unchanged: the searches of
-- src/peer.c find what they found before.
use lane_cove_tunnel.Prelude.{
  ℕ, zero, suc, ◌+◌, ◌<◌, ◌≡◌, refl, Bool, none, some, List, [], ◌∷◌, length, get_or, set, inl, inr,
  arith, ◌∙◌,
}
use lane_cove_tunnel.World.{Addr}
use lane_cove_tunnel.Node.{Session, zero_session}
use lane_cove_tunnel.Sessions.{
  slot, find_index, has_addr, find_session_by_addr, Best, route_lookup_from, route_lookup,
}
use lane_cove_tunnel.Sessions.Route.{Serves}
use lane_cove_tunnel.Sessions.Lookup.{route_lookup-IsLongest}

pub record Keeps (old new : Session) : Type 0 where
  pub active : new.active ≡ old.active
  pub addr : new.addr ≡ old.addr
  pub session_key : new.session_key ≡ old.session_key
  pub routes : new.routes ≡ old.routes

pub Keeps-trans : (r s t : Session) → Keeps r s → Keeps s t → Keeps r t
Keeps-trans r s t a b = record {
  active = b.active ∙ a.active;
  addr = b.addr ∙ a.addr;
  session_key = b.session_key ∙ a.session_key;
  routes = b.routes ∙ a.routes;
}

find_index-set {ℓ} :
    {A : Type ℓ} (test : A → Bool) (xs : List A) (i : ℕ) (v d : A)
    → test v ≡ test (get_or xs i d)
    → find_index test (set xs i v) ≡ find_index test xs
unfolding find_index
find_index-set test [] i v d h = refl
find_index-set test (x ∷ xs) zero v d h = rw h
find_index-set test (x ∷ xs) (suc i) v d h = rw (find_index-set test xs i v d h)

pub find_session_by_addr-set :
    (addr : Addr) (sessions : List Session) (i : ℕ) (s : Session)
    → Keeps (slot sessions i) s
    → find_session_by_addr addr (set sessions i s) ≡ find_session_by_addr addr sessions
unfolding find_session_by_addr slot
find_session_by_addr-set addr sessions i s k =
    find_index-set (has_addr addr) sessions i s zero_session (rw (k.active, k.addr))

route_lookup_from-set :
    (ip n : ℕ) (sessions : List Session) (i : ℕ) (s : Session) (best : Best)
    → s.active ≡ (get_or sessions i zero_session).active
    → s.routes ≡ (get_or sessions i zero_session).routes
    → route_lookup_from ip n (set sessions i s) best ≡ route_lookup_from ip n sessions best
unfolding route_lookup_from
route_lookup_from-set ip n [] i s best a r = refl
route_lookup_from-set ip n (x ∷ sessions) zero s best a r = rw (a, r)
route_lookup_from-set ip n (x ∷ sessions) (suc i) s best a r =
    route_lookup_from-set ip (suc n) sessions i s _ a r

pub route_lookup-set :
    (ip : ℕ) (sessions : List Session) (i : ℕ) (s : Session)
    → Keeps (slot sessions i) s
    → route_lookup ip (set sessions i s) ≡ route_lookup ip sessions
unfolding route_lookup slot
route_lookup-set ip sessions i s k =
    rw (route_lookup_from-set ip 0 sessions i s none k.active k.routes, route_lookup)

Serves-below :
    (ip n : ℕ) (sessions : List Session) (i len : ℕ)
    → Serves ip n sessions i len
    → i < n + length sessions
Serves-below ip n [] i len h = absurd h
Serves-below ip n (s ∷ sessions) i len (inl (here, _, _)) = omega arith
Serves-below ip n (s ∷ sessions) i len (inr later) =
    omega (arith, Serves-below ip (suc n) sessions i len later)

-- A session that a route leads to stands in the table.
pub route_lookup-below :
    (ip : ℕ) (sessions : List Session) (i : ℕ)
    → route_lookup ip sessions ≡ some i
    → i < length sessions
route_lookup-below ip sessions i h =
    let best = route_lookup-IsLongest ip sessions i h in
    omega (arith, Serves-below ip 0 sessions i best.len best.serves)
