-- ===== src/Tests/Start.antt =====
-- A configuration file, the key files, and a run of `main`.
use lane_cove_tunnel.Prelude.{
  ℕ, zero, suc, ◌<◌, ◌≡◌, ◌↔◌, refl, true, Bool, Option, none, some, List, [], ◌∷◌, if◌then◌else◌,
  replicate, get_or, arith,
}
use lane_cove_tunnel.Prelude.Int.{neg}
use lane_cove_tunnel.Prelude.Bytes.{Bytes, bytes_eq}
use lane_cove_tunnel.World.{Env, World}
use lane_cove_tunnel.Hex.{is_space, hex_to_bytes, hex_loop, scan_hex, digit_value, scan_second}
use lane_cove_tunnel.Handshake.Client.{generate_eph_keypair}
use lane_cove_tunnel.Node.{Node, zero_config, zero_pending}
use lane_cove_tunnel.Cidr.{
  parse_cidr, split_slash, prefix_of, atoi, strtol, read_digits, mask_of, prefix_at,
}
use lane_cove_tunnel.Config.{
  codes, YamlEvent, scalar, sequence_start, sequence_end, mapping_start, mapping_end, stream_end,
  other_event, default_settings, Loading, start_loading,
}
use lane_cove_tunnel.Config.Values.{set_setting, add_route, set_peer}
use lane_cove_tunnel.Config.Load.{
  in_root, in_root_val, in_peers_seq, in_peer_map, in_peer_val, in_allowed_ips_seq, load_in,
  load_loop, load_config,
}
use lane_cove_tunnel.Config.Check.{passed, check_config, timers_of}
use lane_cove_tunnel.Config.Accepted.{IsAccepted, check_config-IsAccepted}
use lane_cove_tunnel.Config.Invariant.{IsLoading}
use lane_cove_tunnel.Config.Sound.{load_config-IsLoading}
use lane_cove_tunnel.Config.Ends.{is_last, load_config_ends}
use lane_cove_tunnel.Keys.{
  Disk, KeyFiles, write_file, load_static_key, save_static_key, keep_static_key,
  load_or_generate_static_key,
}
use lane_cove_tunnel.Keys.Again.{IsKeyFiles, load_or_generate_again}
use lane_cove_tunnel.Start.{
  Host, Outcome, exited, unread, looping, finished, initial_node, no_flags, config_path,
  alloc_tunnel, open_tunnel, bind_ip, after_check, start_peer, run_peer, run_config, main,
}
use lane_cove_tunnel.Start.Invariant.{ran, IsRun, main-IsRun}
use lane_cove_tunnel.Start.Ends.{IsEnded, main_ends}
use lane_cove_tunnel.Loop.Send.{refresh_precomp_eph}
use lane_cove_tunnel.Loop.Step.{
  interrupted, Turn, close_loop, run_turns, event_loop, turns_end, event_loop_ends,
}
use lane_cove_tunnel.Loop.Report.{sigterm, handle_signal, handle_signals}
use lane_cove_tunnel.Tests.Toy
use lane_cove_tunnel.Tests.Toy.{toy, toy_env, start, length-filled}

abbrev event_at : List YamlEvent → ℕ → Option YamlEvent
event_at [] n = none
event_at (ev ∷ events) zero = some ev
event_at (ev ∷ events) (suc n) = event_at events n

-- 64 hexadecimal digits
abbrev key_text : Bytes
key_text = replicate 64 b'a'

abbrev events : List YamlEvent
events =
    other_event
    ∷ other_event
    ∷ mapping_start
    ∷ scalar (codes "interface")
    ∷ scalar (codes "tun0")
    ∷ scalar (codes "peers")
    ∷ sequence_start
    ∷ mapping_start
    ∷ scalar (codes "public_key")
    ∷ scalar key_text
    ∷ scalar (codes "allowed_ips")
    ∷ sequence_start
    ∷ scalar (codes "10.9.5.7/24")
    ∷ sequence_end
    ∷ mapping_end
    ∷ sequence_end
    ∷ mapping_end
    ∷ other_event
    ∷ stream_end
    ∷ []

abbrev pton : Bytes → Option ℕ
pton s = if bytes_eq s (codes "10.9.5.7") then some 0x0a090507 else none

abbrev result : Option (Bool × Loading × World)
result = load_config toy toy_env pton true true (event_at events) 30 start

abbrev loading_of : Option (Bool × Loading × World) → Loading
loading_of none = start_loading
loading_of (some (ok, ld, w)) = ld

abbrev loaded : Loading
loaded = loading_of result

loads : result ≡ some (true, loaded, start)
unfolding load_config load_loop load_in in_root in_root_val in_peers_seq in_peer_map in_peer_val
    in_allowed_ips_seq start_loading default_settings set_setting set_peer add_route bytes_eq
    hex_to_bytes hex_loop scan_hex parse_cidr split_slash prefix_of atoi strtol neg read_digits
    is_space mask_of prefix_at zero_config digit_value scan_second
loads = refl

load_config-IsLoading_example : IsLoading loaded
load_config-IsLoading_example =
    load_config-IsLoading toy toy_env pton true true (event_at events) 30 start {ok = true}
      {ld = loaded} {w' = start} loads

load_config_ends_example :
    (r : Bool × Loading × World) × ((fuel : ℕ)
      → 18 < fuel
      → load_config toy toy_env pton true true (event_at events) fuel start ≡ some r)
load_config_ends_example =
    load_config_ends toy toy_env pton true true (event_at events) 18 start refl

check_config-IsAccepted_example :
    (check_config loaded.settings loaded.peer_configs ≡ passed)
    ↔ IsAccepted loaded.settings loaded.peer_configs
check_config-IsAccepted_example = check_config-IsAccepted loaded.settings loaded.peer_configs

abbrev files : KeyFiles ℕ
files = record {
  read_private_key = λ content. some (get_or content 0 0);
  Public = ℕ;
  read_pubkey = λ content. some (get_or content 0 0);
  raw_pubkey = λ k. some (replicate 32 k);
  room = λ path. 4096;
  new_raw_private_key = λ r. some (get_or r 0 0);
  raw_private_key = λ k. some (replicate 32 k);
  can_write = λ path. true;
}

files-IsKeyFiles : IsKeyFiles toy files
files-IsKeyFiles = record {
  reload = λ k {r} {p} read known.
      let same : k ≡ get_or r 0 0 = Toy.loaded k (get_or r 0 0) r read refl in
      (length-filled 32 k r read, get_or r 0 0, refl, rw (← same) known);
}

abbrev disk : Disk
disk path =
    if bytes_eq path (codes "peer.yaml")
    then some (1 ∷ [])
    else if bytes_eq path (codes "peer.key")
    then some (5 ∷ [])
    else none

abbrev new_disk : Disk
new_disk = write_file (codes "new.key") (replicate 32 1) disk

generates :
    load_or_generate_static_key toy files toy_env (codes "new.key") disk start
    ≡ (some (1, replicate 32 1), new_disk, record start { calls = 1 })
unfolding load_or_generate_static_key generate_eph_keypair keep_static_key save_static_key
    write_file bytes_eq
generates = refl

load_or_generate_again_example :
    (k' : ℕ) × ((e' : Env ℕ) (v : World)
      → load_or_generate_static_key toy files e' (codes "new.key") new_disk v
        ≡ (some (k', replicate 32 1), new_disk, v))
load_or_generate_again_example =
    load_or_generate_again toy files files-IsKeyFiles toy_env (codes "new.key") disk start {k = 1}
      {p = replicate 32 1} {disk' = new_disk} {w' = record start { calls = 1 }} (omega arith)
      generates

abbrev host : Host
host = record {
  open_tun = some 3;
  tunsetiff = λ fd flags name. some name;
  socket = some 4;
  inet_pton = pton;
  bind = λ fd addr. true;
  got_contexts = true;
  got_epoll = true;
  yaml_initializes = true;
  yaml = λ content n. if bytes_eq content (1 ∷ []) then event_at events n else none;
}

-- SIGTERM comes before the first turn.
abbrev turns : List Turn
turns = record { before = sigterm ∷ []; during = []; wait = interrupted } ∷ []

abbrev outcome : Outcome ℕ
outcome = main toy toy_env host files [] disk 30 turns start

abbrev node_of : Outcome ℕ → Node ℕ
node_of exited = initial_node []
node_of unread = initial_node []
node_of (looping node w) = node
node_of (finished node w) = node

abbrev world_of : Outcome ℕ → World
world_of exited = start
world_of unread = start
world_of (looping node w) = w
world_of (finished node w) = w

runs : ran outcome ≡ some (node_of outcome, world_of outcome)
unfolding main event_loop_ends turns_end config_path run_config after_check run_peer start_peer
    open_tunnel alloc_tunnel bind_ip load_static_key initial_node no_flags refresh_precomp_eph
    generate_eph_keypair event_loop run_turns close_loop handle_signals handle_signal check_config
    timers_of load_config load_loop load_in in_root in_root_val in_peers_seq in_peer_map in_peer_val
    in_allowed_ips_seq start_loading default_settings set_setting set_peer add_route bytes_eq
    hex_to_bytes hex_loop scan_hex parse_cidr split_slash prefix_of atoi strtol neg read_digits
    is_space mask_of prefix_at zero_config digit_value scan_second zero_pending
runs = refl

main-IsRun_example : IsRun toy toy_env host files [] disk 30 start (node_of outcome)
main-IsRun_example =
    main-IsRun toy toy_env host files disk turns [] 30 start {node = node_of outcome}
      {w' = world_of outcome} runs

-- The one file that the options name.
same_file :
    (path content : Bytes)
    → config_path [] (codes "peer.yaml") ≡ some path
    → disk path ≡ some content
    → is_last (host.yaml content 18) ≡ true
unfolding config_path bytes_eq
same_file path content named here =
    let same : codes "peer.yaml" ≡ path = cc named in
    let is_it : some (1 ∷ []) ≡ some content = rw (← same) at here in
    let it : 1 ∷ [] ≡ content = cc is_it in rw (← it) refl

main_ends_example :
    (r : Outcome ℕ) × IsEnded r
    × ((fuel : ℕ) → 18 < fuel → main toy toy_env host files [] disk fuel turns start ≡ r)
main_ends_example = main_ends toy toy_env host files disk turns refl [] 18 start same_file
