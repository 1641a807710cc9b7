-- ===== src/Start/Invariant.antt =====
-- From the configuration file to the end of `event_loop`, in `main` of src/peer.c.
use lane_cove_tunnel.Prelude.{
  ℕ, ◌≡◌, refl, Bool, true, false, Option, none, some, Option-cases, inl, inr, List, length, ap,
  get_or-replicate,
}
use lane_cove_tunnel.Prelude.Bytes.{Bytes}
use lane_cove_tunnel.Prelude.Partial.{guard, >>=-eq-some}
use mathlib.Core.Path.{subst}
use lane_cove_tunnel.Prelude.Int.{magnitude}
use lane_cove_tunnel.Crypto.{Crypto}
use lane_cove_tunnel.World.{Env, World}
use lane_cove_tunnel.Node.{PeerConfig, PendingHs, Self, Node, zero_pending, max_peers}
use lane_cove_tunnel.Loop.Within.{IsWithin, refresh-IsWithin}
use lane_cove_tunnel.Loop.Within.Turns.{event_loop-IsWithin}
use lane_cove_tunnel.Sessions.Unique.{IsTable, empty-IsTable}
use lane_cove_tunnel.Keys.{Disk, KeyFiles, load_static_key}
use lane_cove_tunnel.Config.{codes, Settings, Loading}
use lane_cove_tunnel.Config.Bounds.{IsConfig}
use lane_cove_tunnel.Config.Check.{Verdict, passed, check_config}
use lane_cove_tunnel.Config.Load.{load_config}
use lane_cove_tunnel.Config.Sound.{load_config-IsLoading}
use lane_cove_tunnel.Config.Accepted.{IsAccepted, check_config-IsAccepted}
use lane_cove_tunnel.Loop.Step.{Turn, event_loop}
use lane_cove_tunnel.Loop.Send.{refresh_precomp_eph}
use lane_cove_tunnel.Loop.Checks.{refresh-sessions}
use lane_cove_tunnel.Loop.Invariant.{event_loop-IsTable}
use lane_cove_tunnel.Start.{
  Host, initial_node, no_flags, Outcome, exited, unread, looping, finished, after_check,
  config_path, open_tunnel, bind_ip, start_peer, run_peer, run_config, main,
}

-- The state of a run that reached the loop: where it is after the turns, or at its end.
abbrev pub ran : {PKey : Type 0} → Outcome PKey → Option (Node PKey × World)
ran exited = none
ran unread = none
ran (looping node w) = some (node, w)
ran (finished node w) = some (node, w)

-- What the loop is entered with, and what holds after its turns: a configuration that passes the checks
-- and a static key that could be read; the session table is one, and the active handshakes point at
-- configured peers.
pub record IsStarted {PKey Ctx : Type 0} (c : Crypto PKey Ctx) (files : KeyFiles PKey) (disk : Disk)
    (ld : Loading) (node : Node PKey) : Type 0 where
  pub static_key : PKey × Bytes
  pub accepted : IsAccepted ld.settings ld.peer_configs
  pub key_found : load_static_key c files ld.settings.keyfile disk ≡ some static_key
  pub table_ok : IsTable node.sessions
  pub within_ok : IsWithin (length ld.peer_configs) node

-- The configuration is that of the file which the options name.
pub record IsRun {PKey Ctx : Type 0} (c : Crypto PKey Ctx) (e : Env PKey) (host : Host)
    (files : KeyFiles PKey) (options : List (Option Bytes)) (disk : Disk) (fuel : ℕ) (w : World)
    (node : Node PKey) : Type 0 where
  pub path : Bytes
  pub content : Bytes
  pub ld : Loading
  pub after : World
  pub named : config_path options (codes "peer.yaml") ≡ some path
  pub here : disk path ≡ some content
  pub loaded :
      load_config c e host.inet_pton true host.yaml_initializes (host.yaml content) fuel w
      ≡ some (true, ld, after)
  pub configs_ok : IsConfig ld.peer_configs
  pub started : IsStarted c files disk ld node

after_check-ran :
    {PKey : Type 0} (v : Verdict) (r : Option (Bool × Node PKey × World)) {node : Node PKey}
    {w : World}
    → ran (after_check v r) ≡ some (node, w)
    → (v ≡ passed) × (ended : Bool) × (r ≡ some (ended, node, w))
unfolding after_check
after_check-ran passed none h = cc h
after_check-ran passed (some (true, n, u)) h = (refl, true, cc h)
after_check-ran passed (some (false, n, u)) h = (refl, false, cc h)
after_check-ran _ r h = cc h

module _ {PKey Ctx : Type 0} (c : Crypto PKey Ctx) (e : Env PKey) (host : Host) where
  started-IsTable :
      (configs : List PeerConfig) (w : World)
      → IsTable (refresh_precomp_eph c e (initial_node configs) w).0.sessions
  unfolding initial_node
  started-IsTable configs w = rw (refresh-sessions c e (initial_node configs) w) empty-IsTable

  started-IsWithin :
      (configs : List PeerConfig) (w : World)
      → IsWithin (length configs) (refresh_precomp_eph c e (initial_node configs) w).0
  unfolding initial_node zero_pending
  started-IsWithin configs w =
      refresh-IsWithin c e (length configs) (initial_node configs) w (record {
        configs = refl;
        pendings = refl;
        indices = λ j on.
            let empty =
              ap (λ (p : PendingHs PKey). p.active) (get_or-replicate max_peers j zero_pending) in
            cc (empty, on);
      })

  start_peer-HasTables :
      (tunnel address : Bytes) (port : ℕ) (self : Self PKey) (turns : List Turn)
      (configs : List PeerConfig) (w : World) {node : Node PKey} {w' : World} {ended : Bool}
      → start_peer c e host tunnel address port self turns configs w ≡ some (ended, node, w')
      → IsTable node.sessions × IsWithin (length configs) node
  unfolding start_peer
  start_peer-HasTables tunnel address port self turns configs w {node} h =
      let (first, v) = refresh_precomp_eph c e (initial_node configs) w in
      let ran = event_loop c e self host.got_contexts host.got_epoll turns no_flags first v in
      >>=-eq-some (open_tunnel host tunnel) _ h (λ tun opened h₁.
        >>=-eq-some host.socket _ h₁ (λ sock made h₂.
          >>=-eq-some (bind_ip host address) _ h₂ (λ ip read h₃.
            >>=-eq-some (guard (host.bind sock (record { ip = ip; port = port }))) _ h₃
              (λ u bound h₄.
                let same : ran.0 ≡ node = cc h₄ in
                subst (λ (m : Node PKey). IsTable m.sessions × IsWithin (length configs) m) same
                  (
                    event_loop-IsTable c e self host.got_contexts host.got_epoll turns no_flags
                        first v (started-IsTable configs w),
                    event_loop-IsWithin c e (length configs) self host.got_contexts host.got_epoll
                        turns no_flags first v (started-IsWithin configs w),
                  )))))

  module _ (files : KeyFiles PKey) (disk : Disk) (turns : List Turn) where
    run_peer_found :
        (s : Settings) (configs : List PeerConfig) (w : World) {node : Node PKey} {w' : World}
        {ended : Bool}
        → run_peer c e host files disk turns s configs w ≡ some (ended, node, w')
        → (key : PKey × Bytes) × (load_static_key c files s.keyfile disk ≡ some key)
          × IsTable node.sessions
          × IsWithin (length configs) node
    unfolding run_peer
    run_peer_found s configs w h =
        >>=-eq-some (load_static_key c files s.keyfile disk) _ h (λ key found h₁.
          let (table, within) =
            start_peer-HasTables s.tunnel s.address (magnitude s.port) _ turns configs w h₁ in
          (key, found, table, within))

    -- The configuration that was loaded, with the check of it split off.
    run_config-IsStarted :
        (r : Option (Bool × Loading × World)) {node : Node PKey} {w' : World}
        → ran (run_config c e host files disk turns r) ≡ some (node, w')
        → (ld : Loading) × (v : World) × (r ≡ some (true, ld, v)) × IsStarted c files disk ld node
    unfolding run_config
    run_config-IsStarted none h = cc h
    run_config-IsStarted (some (false, ld, v)) h = cc h
    run_config-IsStarted (some (true, ld, v)) {node} {w'} h =
        let (good, ended, ends) =
          after_check-ran (check_config ld.settings ld.peer_configs)
            (run_peer c e host files disk turns ld.settings ld.peer_configs v) h in
        let (key, found, table, within) = run_peer_found ld.settings ld.peer_configs v ends in
        (
          ld,
          v,
          refl,
          record {
            static_key = key;
            accepted = (check_config-IsAccepted ld.settings ld.peer_configs).0 good;
            key_found = found;
            table_ok = table;
            within_ok = within;
          },
        )

    -- When `main` reaches the loop, and whatever happens in the loop: the file that the options name
    -- was there, and `load_config` read it to a configuration with an interface, at least one peer, a
    -- port from 1 to 65535 and positive timers with `session_expiry` above `rekey_after`, in which
    -- every peer is well formed; the key file that it names was there; and after the turns of the
    -- loop the session table is one, with at most `max_peers` slots whose active sessions belong to
    -- different keys, and the indices in `pending_hs` stay within the peers of the configuration.
    pub main-IsRun :
        (options : List (Option Bytes)) (fuel : ℕ) (w : World) {node : Node PKey} {w' : World}
        → ran (main c e host files options disk fuel turns w) ≡ some (node, w')
        → IsRun c e host files options disk fuel w node
    unfolding main load_config run_config
    main-IsRun options fuel w {node} {w'} h =
        elim (Option-cases (config_path options (codes "peer.yaml"))) [
          | inl unknown ↦
              let h' : ◌≡◌ {A = Option (Node PKey × World)} none (some (node, w')) =
                rw (main, unknown) at h in
              cc h'
          | inr (path, named) ↦ elim (Option-cases (disk path)) [
            | inl missing ↦
                let h' : ◌≡◌ {A = Option (Node PKey × World)} none (some (node, w')) =
                  rw (main, named, missing) at h in
                cc h'
            | inr (content, here) ↦
                let (ld, v, loaded, started) =
                  run_config-IsStarted
                    (load_config c e host.inet_pton true host.yaml_initializes (host.yaml content)
                      fuel w)
                    (rw (main, named, here) at h) in
                record {
                  path = path;
                  content = content;
                  ld = ld;
                  after = v;
                  named = named;
                  here = here;
                  loaded = loaded;
                  configs_ok =
                      (load_config-IsLoading c e host.inet_pton true host.yaml_initializes
                        (host.yaml content) fuel w loaded).configs_ok;
                  started = started;
                }
          ]
        ]
