-- ===== src/Start.antt =====
-- The start of the program: `open_tunnel` of src/common.c, `start_peer` and `main` of src/peer.c.
pub mod Invariant
pub mod Ends
use lane_cove_tunnel.Prelude.{
  ℕ, Bool, true, false, not, ◌&&◌, Option, none, some, List, [], ◌∷◌, ◌==◌, if◌then◌else◌, length,
  take, replicate,
}
use lane_cove_tunnel.Prelude.Int.{magnitude}
use lane_cove_tunnel.Prelude.Bytes.{Bytes}
use lane_cove_tunnel.Prelude.Partial.{◌>>=◌, ◌>>◌, guard}
use lane_cove_tunnel.Crypto.{Crypto}
use lane_cove_tunnel.World.{Env, World, Addr}
use lane_cove_tunnel.Handshake.{derive_key}
use lane_cove_tunnel.Node.{PeerConfig, Self, Node, max_peers, zero_pending}
use lane_cove_tunnel.Config.{YamlEvent, codes, Settings, Loading}
use lane_cove_tunnel.Config.Load.{load_config}
use lane_cove_tunnel.Config.Check.{Verdict, passed, check_config, timers_of}
use lane_cove_tunnel.Keys.{Disk, KeyFiles, load_static_key}
use lane_cove_tunnel.Loop.Report.{Flags}
use lane_cove_tunnel.Loop.Send.{refresh_precomp_eph}
use lane_cove_tunnel.Loop.Step.{Turn, event_loop, event_loop_ends}

-- What the system answers while the program starts; `none` is a negative return value.
pub record Host : Type 0 where
  -- open("/dev/net/tun", O_RDWR)
  pub open_tun : Option ℕ
  -- ioctl(fd, TUNSETIFF, ...) for the flags and a name: the name of the device
  pub tunsetiff : ℕ → ℕ → Bytes → Option Bytes
  -- socket(AF_INET, SOCK_DGRAM, 0)
  pub socket : Option ℕ
  -- inet_pton(AF_INET, ...) and ntohl
  pub inet_pton : Bytes → Option ℕ
  -- bind(...) >= 0
  pub bind : ℕ → Addr → Bool
  -- EVP_CIPHER_CTX_new, twice, and epoll_create1
  pub got_contexts : Bool
  pub got_epoll : Bool
  -- yaml_parser_initialize, and yaml_parser_parse for a file's content and the call's number
  pub yaml_initializes : Bool
  pub yaml : Bytes → ℕ → Option YamlEvent

module _ (host : Host) where
  -- `alloc_tunnel` from `ifr` on.
  unfoldable pub attach_tunnel : ℕ → Bytes → ℕ → Option (ℕ × Bytes)
  attach_tunnel tun_fd dev flags = do
    ifr_name ← host.tunsetiff tun_fd flags (take 16 dev)
    some (tun_fd, ifr_name)

  -- The descriptor and the name that is copied into `dev`.
  unfoldable pub alloc_tunnel : Bytes → ℕ → Option (ℕ × Bytes)
  unfolding attach_tunnel
  alloc_tunnel dev flags = do tun_fd ← host.open_tun; attach_tunnel tun_fd dev flags

  -- IFF_TUN | IFF_NO_PI
  unfoldable pub open_tunnel : Bytes → Option (ℕ × Bytes)
  open_tunnel tunnel = alloc_tunnel tunnel 0x1001

  -- `bind_addr.sin_addr`: INADDR_ANY without an address.
  unfoldable pub bind_ip : Bytes → Option ℕ
  bind_ip [] = some 0
  bind_ip (c ∷ address) = host.inet_pton (c ∷ address)

-- The static variables before the loop.
unfoldable pub initial_node : {PKey : Type 0} → List PeerConfig → Node PKey
initial_node configs = record {
  peer_configs = configs;
  sessions = [];
  pending_hs = replicate max_peers zero_pending;
  precomp_eph_key = none;
  precomp_eph_pub = replicate 32 0;
  last_rekey_check = 0;
}

unfoldable pub no_flags : Flags
no_flags = record { stop = false; print = false }

-- The options that `getopt` finds: `-c` with its argument, or one that is unknown.
unfoldable pub config_path : List (Option Bytes) → Bytes → Option Bytes
config_path [] path = some path
config_path (none ∷ options) path = none
config_path (some optarg ∷ options) path = config_path options optarg

-- What `main` comes to: an `exit` with a failure, or its return of 0 after the loop, with the state then.
-- A loop that still waits after the turns that are given is `looping`, and `unread` stands for a
-- configuration that is longer than the fuel.
pub data Outcome (PKey : Type 0) : Type 0 where
  exited unread : Outcome PKey
  looping finished : Node PKey → World → Outcome PKey

-- The first check that fails ends the program; with none, it goes on to what it runs.
unfoldable pub after_check :
    {PKey : Type 0} → Verdict → Option (Bool × Node PKey × World) → Outcome PKey
after_check passed none = exited
after_check passed (some (false, node, w)) = looping node w
after_check passed (some (true, node, w)) = finished node w
after_check _ r = exited

module _ {PKey Ctx : Type 0} (c : Crypto PKey Ctx) (e : Env PKey) (host : Host) where
  -- `start_peer` from `bind_addr` on, with whether the loop has ended.
  unfoldable pub listen :
      ℕ
      → Bytes
      → ℕ
      → Self PKey
      → List Turn
      → List PeerConfig
      → World
      → Option (Bool × Node PKey × World)
  listen sock_fd address port self turns configs w = do
    ip ← bind_ip host address
    guard (host.bind sock_fd (record { ip = ip; port = port }))
    let (node, w) = refresh_precomp_eph c e (initial_node configs) w
    let ended = event_loop_ends c e self host.got_contexts host.got_epoll turns no_flags node w
    let (node, w) = event_loop c e self host.got_contexts host.got_epoll turns no_flags node w
    some (ended, node, w)

  -- `none` is an `exit`.
  unfoldable pub start_peer :
      Bytes
      → Bytes
      → ℕ
      → Self PKey
      → List Turn
      → List PeerConfig
      → World
      → Option (Bool × Node PKey × World)
  unfolding listen
  start_peer tunnel address port self turns configs w = do
    (tun_fd, name) ← open_tunnel host tunnel
    sock_fd ← host.socket
    listen sock_fd address port self turns configs w

  module _ (files : KeyFiles PKey) where
    -- `main` from `load_static_key` on.
    unfoldable pub run_peer :
        Disk → List Turn → Settings → List PeerConfig → World → Option (Bool × Node PKey × World)
    run_peer disk turns s configs w = do
      (static_key, static_pub) ← load_static_key c files s.keyfile disk
      let self : Self PKey = record {
        static_key = static_key;
        static_pub = static_pub;
        psk_key = if s.has_psk then some (derive_key c s.psk) else none;
        timers = timers_of s;
      }
      start_peer s.tunnel s.address (magnitude s.port) self turns configs w

    -- `main` from `load_config` on.
    unfoldable pub run_config : Disk → List Turn → Option (Bool × Loading × World) → Outcome PKey
    run_config disk turns none = unread
    run_config disk turns (some (false, ld, w)) = exited
    run_config disk turns (some (true, ld, w)) =
        after_check (check_config ld.settings ld.peer_configs)
          (run_peer disk turns ld.settings ld.peer_configs w)

    unfoldable pub main : List (Option Bytes) → Disk → ℕ → List Turn → World → Outcome PKey
    main options disk fuel turns w = elim (config_path options (codes "peer.yaml")) [
      | none ↦ exited
      | some path ↦ elim (disk path) [
        | none ↦
            run_config disk turns (load_config c e host.inet_pton false false (λ n. none) fuel w)
        | some content ↦
            run_config disk turns
              (load_config c e host.inet_pton true host.yaml_initializes (host.yaml content) fuel w)
      ]
    ]
