-- ===== src/Sessions.antt =====
-- The session table of src/peer.c: finding, allocating and starting sessions, and routing by them.
-- A pointer into the table is an index, NULL is `none`.
pub mod Find
pub mod Unique
pub mod Route
pub mod Lookup
use lane_cove_tunnel.Prelude.{
  ℕ, zero, suc, ◌+◌, Bool, true, false, not, ◌&&◌, ◌||◌, Option, none, some, List, [], ◌∷◌, ◌++◌,
  ltb, leb, ◌==◌, if◌then◌else◌, length, get_or, set, take, bit_and,
}
use lane_cove_tunnel.Prelude.Bytes.{Bytes, bytes_eq}
use lane_cove_tunnel.Hex.{bytes_to_hex}
use lane_cove_tunnel.World.{Env, World, Addr, peer_connected, peer_rekeyed, address_changed}
use lane_cove_tunnel.Replay.{empty_window}
use lane_cove_tunnel.Node.{IpPrefix, PeerConfig, Session, Timers, max_peers, zero_session}

-- `sessions[i]`
unfoldable pub slot : List Session → ℕ → Session
slot sessions i = get_or sessions i zero_session

-- `for (i = 0; i < n; i++) if (test(a[i])) return i;`
unfoldable pub find_index {ℓ} : {A : Type ℓ} → (A → Bool) → List A → Option ℕ
find_index test [] = none
find_index test (x ∷ xs) =
    if test x then some 0 else (elim (find_index test xs) [ none ↦ none | some i ↦ some (suc i) ])

-- `a.sin_addr.s_addr == b.sin_addr.s_addr && a.sin_port == b.sin_port`
abbrev pub same_addr : Addr → Addr → Bool
same_addr a b = a.ip == b.ip && a.port == b.port

abbrev pub has_pub : Bytes → Session → Bool
has_pub key s = s.active && bytes_eq s.static_pub key

abbrev pub has_addr : Addr → Session → Bool
has_addr addr s = s.active && same_addr s.addr addr

unfoldable pub find_peer_config : Bytes → List PeerConfig → Option PeerConfig
find_peer_config key [] = none
find_peer_config key (cfg ∷ cfgs) =
    if bytes_eq cfg.pub_key key then some cfg else find_peer_config key cfgs

unfoldable pub find_session_by_addr : Addr → List Session → Option ℕ
find_session_by_addr addr sessions = find_index (has_addr addr) sessions

unfoldable pub find_session_by_pub : Bytes → List Session → Option ℕ
find_session_by_pub key sessions = find_index (has_pub key) sessions

-- The slot, and the table, which is one longer where a slot was added at its end.
unfoldable pub alloc_session : Bytes → Addr → List Session → Option (ℕ × List Session)
alloc_session key addr sessions = elim (find_index (has_pub key) sessions) [
  | some i ↦ some (i, sessions)
  | none ↦ elim (find_session_by_addr addr sessions) [
    | some i ↦ some (i, sessions)
    | none ↦ elim (find_index (λ s. not s.active) sessions) [
      | some i ↦ some (i, sessions)
      | none ↦
          if leb max_peers (length sessions)
          then none
          else some (length sessions, sessions ++ zero_session ∷ [])
    ]
  ]
]

-- `(dst_ip & mask) == network`
abbrev pub route_match : ℕ → IpPrefix → Bool
route_match ip r = bit_and ip r.mask == r.network

-- `best` and `best_prefix` of `route_lookup`: the slot and its prefix length, `none` for NULL, -1.
abbrev pub Best : Type 0
Best = Option (ℕ × ℕ)

abbrev pub longer_than : ℕ → Best → Bool
longer_than len none = true
longer_than len (some (i, best_prefix)) = ltb best_prefix len

-- The body of the two loops: route r of session i against the best so far.
unfoldable pub consider : ℕ → ℕ → IpPrefix → Best → Best
consider dst_ip i r best =
    if route_match dst_ip r && longer_than r.prefix_len best then some (i, r.prefix_len) else best

-- The inner loop, over the routes of session i.
unfoldable pub route_lookup_in : ℕ → ℕ → List IpPrefix → Best → Best
route_lookup_in dst_ip i [] best = best
route_lookup_in dst_ip i (r ∷ routes) best =
    route_lookup_in dst_ip i routes (consider dst_ip i r best)

-- The outer loop, from session i on.
unfoldable pub route_lookup_from : ℕ → ℕ → List Session → Best → Best
route_lookup_from dst_ip i [] best = best
route_lookup_from dst_ip i (s ∷ sessions) best =
    route_lookup_from dst_ip (suc i) sessions
      (if s.active then route_lookup_in dst_ip i s.routes best else best)

unfoldable pub route_lookup : ℕ → List Session → Option ℕ
route_lookup dst_ip sessions = elim (route_lookup_from dst_ip 0 sessions none) [
  | none ↦ none
  | some (i, best_prefix) ↦ some i
]

abbrev pub any_route : ℕ → List IpPrefix → Bool
any_route ip [] = false
any_route ip (r ∷ routes) = route_match ip r || any_route ip routes

unfoldable pub check_allowed_src : List IpPrefix → ℕ → Bool
check_allowed_src routes src_ip = length routes == 0 || any_route src_ip routes

module _ {PKey : Type 0} (e : Env PKey) where
  -- `time(NULL)`
  unfoldable pub time_now : World → ℕ × World
  time_now w = (e.clock w.calls, record w { calls = w.calls + 1 })

  -- The key of the session that the slot held is kept for a while.
  unfoldable pub keep_prev_key : Timers → Session → World → Session × World
  unfolding time_now
  keep_prev_key timers s w =
      if s.active
      then (let (now, w) = time_now w in
          (
            record s {
              prev_session_key = s.session_key;
              prev_key_active = true;
              prev_key_expires = now + timers.prev_key_grace;
            },
            w,
          ))
      else (record s { prev_key_active = false }, w)

  -- The line at the end of `session_init`, from the session as it was.
  unfoldable pub log_session : Session → Addr → Bytes → World → World
  log_session old addr key w =
      let key_hex = bytes_to_hex (take 8 key) in
      let line =
        if old.active
        then (if same_addr old.addr addr
            then peer_rekeyed addr key_hex
            else address_changed old.addr addr key_hex)
        else peer_connected addr key_hex in
      record w { log = w.log ++ (line ∷ []) }

  abbrev pub routes_of : Option PeerConfig → List IpPrefix
  routes_of none = []
  routes_of (some cfg) = cfg.routes

  unfoldable pub session_init :
      Timers → Session → Addr → Bytes → Bytes → Option PeerConfig → Bool → World → Session × World
  unfolding time_now keep_prev_key
  session_init timers s addr key session_key cfg is_outbound w =
      let (kept, w) = keep_prev_key timers s w in
      let (last_sent, w) = time_now w in
      let (last_handshake, w) = time_now w in
      let (now, w) = time_now w in
      (
        record kept {
          active = true;
          addr = addr;
          static_pub = key;
          session_key = session_key;
          last_seen = 0;
          last_sent = last_sent;
          last_handshake = last_handshake;
          rekey_deadline = now + timers.rekey_after;
          rekeying = false;
          send_seq = 0;
          window = empty_window;
          is_outbound = is_outbound;
          routes = routes_of cfg;
        },
        log_session s addr key w,
      )
