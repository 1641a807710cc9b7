-- ===== src/Config/Load.antt =====
-- The state machine of `load_config`: one function for each `case`, the `switch`, and the loop.
use lane_cove_tunnel.Prelude.{
  ℕ, zero, suc, Bool, true, false, not, ◌&&◌, Option, none, some, [], ◌∷◌, ◌++◌, leb, if◌then◌else◌,
  length, take,
}
use lane_cove_tunnel.Prelude.Bytes.{Bytes}
use lane_cove_tunnel.Crypto.{Crypto}
use lane_cove_tunnel.World.{Env, World}
use lane_cove_tunnel.Node.{max_peers, zero_config}
use lane_cove_tunnel.Config.{
  is_text, YamlEvent, scalar, sequence_start, sequence_end, mapping_start, mapping_end, stream_end,
  LoadState, root, root_val, peers_seq, peer_map, peer_val, allowed_ips_seq, Loading, start_loading,
}
use lane_cove_tunnel.Config.Values.{set_setting, last_config, set_last, add_route, set_peer}

unfoldable pub in_root : YamlEvent → Loading → Loading
in_root (scalar v) ld = record ld { key = take 63 v; state = root_val }
in_root _ ld = ld

unfoldable pub in_root_val : YamlEvent → Loading → Loading
in_root_val (scalar v) ld = record ld { settings = set_setting ld.key v ld.settings; state = root }
in_root_val sequence_start ld =
    if is_text ld.key "peers" then record ld { state = peers_seq } else ld
in_root_val _ ld = ld

-- `false` stands for `ok = 0`.
unfoldable pub in_peers_seq : YamlEvent → Loading → Bool × Loading
in_peers_seq sequence_end ld = (true, record ld { state = root })
in_peers_seq mapping_start ld = if leb max_peers (length ld.peer_configs) then (false, ld) else (
  true,
  record ld { peer_configs = ld.peer_configs ++ (zero_config ∷ []); state = peer_map },
)
in_peers_seq _ ld = (true, ld)

unfoldable pub in_peer_map : YamlEvent → Loading → Loading
in_peer_map mapping_end ld = record ld { state = peers_seq }
in_peer_map (scalar v) ld = record ld { peer_key = take 63 v; state = peer_val }
in_peer_map _ ld = ld

unfoldable pub in_allowed_ips_seq : (Bytes → Option ℕ) → YamlEvent → Loading → Bool × Loading
in_allowed_ips_seq inet_pton sequence_end ld = (true, record ld { state = peer_map })
in_allowed_ips_seq inet_pton (scalar v) ld = add_route inet_pton v ld
in_allowed_ips_seq inet_pton _ ld = (true, ld)

-- `done`
abbrev pub is_end : YamlEvent → Bool
is_end stream_end = true
is_end _ = false

module _ {PKey Ctx : Type 0} (c : Crypto PKey Ctx) (e : Env PKey) where
  unfoldable pub in_peer_val : YamlEvent → Loading → World → Bool × Loading × World
  in_peer_val (scalar v) ld w =
      let (ok, cfg, w) = set_peer c e ld.peer_key v (last_config ld.peer_configs) w in
      let ld = set_last ld cfg in (ok, if ok then record ld { state = peer_map } else ld, w)
  in_peer_val sequence_start ld w = (
    true,
    if is_text ld.peer_key "allowed_ips" then record ld { state = allowed_ips_seq } else ld,
    w,
  )
  in_peer_val _ ld w = (true, ld, w)

  module _ (inet_pton : Bytes → Option ℕ) where
    -- `switch (state)`
    unfoldable pub load_in : LoadState → YamlEvent → Loading → World → Bool × Loading × World
    load_in root ev ld w = (true, in_root ev ld, w)
    load_in root_val ev ld w = (true, in_root_val ev ld, w)
    load_in peers_seq ev ld w = let (ok, ld) = in_peers_seq ev ld in (ok, ld, w)
    load_in peer_map ev ld w = (true, in_peer_map ev ld, w)
    load_in peer_val ev ld w = in_peer_val ev ld w
    load_in allowed_ips_seq ev ld w =
        let (ok, ld) = in_allowed_ips_seq inet_pton ev ld in (ok, ld, w)

    -- `while (ok)`. The answer of `yaml_parser_parse` to its call number n is `yaml n`, `none` for a
    -- parse error. The result is `none` when the fuel runs out.
    unfoldable pub load_loop :
        (ℕ → Option YamlEvent) → ℕ → ℕ → Loading → World → Option (Bool × Loading × World)
    load_loop yaml zero n ld w = none
    load_loop yaml (suc fuel) n ld w = elim (yaml n) [
      | none ↦ some (false, ld, w)
      | some ev ↦
          let (ok, ld', w') = load_in ld.state ev ld w in
          let rest = load_loop yaml fuel (suc n) ld' w' in
          if ok && not (is_end ev) then rest else some (ok, ld', w')
    ]

    -- The function: whether `fopen` and `yaml_parser_initialize` succeed, and the events.
    unfoldable pub load_config :
        Bool → Bool → (ℕ → Option YamlEvent) → ℕ → World → Option (Bool × Loading × World)
    load_config opens initializes yaml fuel w =
        if opens && initializes
        then load_loop yaml fuel 0 start_loading w
        else some (false, start_loading, w)
