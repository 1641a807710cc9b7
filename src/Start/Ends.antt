-- ===== src/Start/Ends.antt =====
-- `main` (src/peer.c) comes to its loop or to an exit.
use lane_cove_tunnel.Prelude.{
  ℕ, ◌<◌, ◌≡◌, refl, Bool, true, false, Option, none, some, Option-cases, inl, inr, List, sym, ◌∙◌,
}
use lane_cove_tunnel.Prelude.Bytes.{Bytes}
use lane_cove_tunnel.Crypto.{Crypto}
use lane_cove_tunnel.World.{Env, World}
use lane_cove_tunnel.Node.{PeerConfig, Self, Node}
use lane_cove_tunnel.Keys.{Disk, KeyFiles, load_static_key}
use lane_cove_tunnel.Config.{codes, Settings, Loading}
use lane_cove_tunnel.Config.Check.{Verdict, passed}
use lane_cove_tunnel.Config.Ends.{is_last, load_config_ends}
use lane_cove_tunnel.Loop.Step.{Turn, event_loop_ends}
use lane_cove_tunnel.Loop.Stop.{stops, event_loop_ends-stops}
use lane_cove_tunnel.Loop.Send.{refresh_precomp_eph}
use lane_cove_tunnel.Prelude.Partial.{guard, >>=-eq-some}
use lane_cove_tunnel.Prelude.Int.{magnitude}
use lane_cove_tunnel.Start.{
  Host, Outcome, exited, unread, looping, finished, after_check, config_path, initial_node,
  no_flags, open_tunnel, bind_ip, start_peer, run_peer, run_config, main,
}

-- An exit or the end of the loop: neither a run on too little fuel nor a loop that waits.
abbrev pub IsEnded : {PKey : Type 0} → Outcome PKey → Type 0
IsEnded exited = Unit {0}
IsEnded unread = ⊥
IsEnded (looping node w) = ⊥
IsEnded (finished node w) = Unit {0}

after_check-IsEnded :
    {PKey : Type 0} (v : Verdict) (r : Option (Bool × Node PKey × World))
    → ((ended : Bool) (node : Node PKey) (w : World) → r ≡ some (ended, node, w) → ended ≡ true)
    → IsEnded (after_check v r)
unfolding after_check
after_check-IsEnded passed none h = tt
after_check-IsEnded passed (some (true, node, w)) h = tt
after_check-IsEnded passed (some (false, node, w)) h = let h' = h false node w refl in cc h'
after_check-IsEnded _ r h = tt

module _ {PKey Ctx : Type 0} (c : Crypto PKey Ctx) (e : Env PKey) (host : Host)
    (files : KeyFiles PKey) (disk : Disk) (turns : List Turn) (asked : stops turns ≡ true) where
  start_peer_ends :
      (tunnel address : Bytes) (port : ℕ) (self : Self PKey) (configs : List PeerConfig) (w : World)
      (ended : Bool) (node : Node PKey) (w' : World)
      → start_peer c e host tunnel address port self turns configs w ≡ some (ended, node, w')
      → ended ≡ true
  unfolding start_peer
  start_peer_ends tunnel address port self configs w ended node w' h =
      let (first, v) = refresh_precomp_eph c e (initial_node configs) w in
      >>=-eq-some (open_tunnel host tunnel) _ h (λ tun opened h₁.
        >>=-eq-some host.socket _ h₁ (λ sock made h₂.
          >>=-eq-some (bind_ip host address) _ h₂ (λ ip read h₃.
            >>=-eq-some (guard (host.bind sock (record { ip = ip; port = port }))) _ h₃
              (λ u bound h₄.
                let same : event_loop_ends c e self host.got_contexts host.got_epoll turns no_flags
                      first v
                    ≡ ended =
                  cc h₄ in
                sym same
                ∙ event_loop_ends-stops c e self host.got_contexts host.got_epoll turns no_flags
                    first v asked))))

  run_peer_ends :
      (s : Settings) (configs : List PeerConfig) (w : World) (ended : Bool) (node : Node PKey)
      (w' : World)
      → run_peer c e host files disk turns s configs w ≡ some (ended, node, w')
      → ended ≡ true
  unfolding run_peer
  run_peer_ends s configs w ended node w' h =
      >>=-eq-some (load_static_key c files s.keyfile disk) _ h (λ key found h₁.
        start_peer_ends s.tunnel s.address (magnitude s.port) _ configs w ended node w' h₁)

  run_config-IsEnded :
      (r : Bool × Loading × World) → IsEnded (run_config c e host files disk turns (some r))
  unfolding run_config
  run_config-IsEnded (false, ld, w) = tt
  run_config-IsEnded (true, ld, w) =
      after_check-IsEnded _ _ (run_peer_ends ld.settings ld.peer_configs w)

  -- `main` ends. Where SIGTERM or SIGINT comes before one of the turns of the loop, and libyaml, for
  -- the file that the options name, if it is there, reports an error or the end of the stream at its
  -- call number k, `main` with any fuel above k comes to one outcome, which is an exit or its return
  -- after the end of the loop.
  pub main_ends :
      (options : List (Option Bytes)) (k : ℕ) (w : World)
      → ((path content : Bytes)
          → config_path options (codes "peer.yaml") ≡ some path
          → disk path ≡ some content
          → is_last (host.yaml content k) ≡ true)
      → (r : Outcome PKey) × IsEnded r
        × ((fuel : ℕ) → k < fuel → main c e host files options disk fuel turns w ≡ r)
  unfolding main
  main_ends options k w last = elim (Option-cases (config_path options (codes "peer.yaml"))) [
    | inl unknown ↦ (exited, tt, λ fuel lt. rw (main, unknown) refl)
    | inr (path, named) ↦ elim (Option-cases (disk path)) [
      | inl missing ↦
          let (r, returns) = load_config_ends c e host.inet_pton false false (λ n. none) k w refl in
          (
            run_config c e host files disk turns (some r),
            run_config-IsEnded r,
            λ fuel lt. rw (main, named, missing, returns fuel lt) refl,
          )
      | inr (content, here) ↦
          let (r, returns) =
            load_config_ends c e host.inet_pton true host.yaml_initializes (host.yaml content) k w
              (last path content named here) in
          (
            run_config c e host files disk turns (some r),
            run_config-IsEnded r,
            λ fuel lt. rw (main, named, here, returns fuel lt) refl,
          )
    ]
  ]
