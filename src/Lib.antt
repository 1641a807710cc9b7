-- ===== src/Lib.antt =====
-- A model of lane-cove-tunnel, a VPN tunnel between peers over UDP, with the theorems that make it
-- correct.
--
-- A peer holds a static X25519 key and a list of configured peers. Its loop (event_loop in
-- src/peer.c) turns around four things: packets from the TUN device, which it routes to a session,
-- encrypts and sends; datagrams, which are answers to its own handshakes, handshakes of others, or
-- data of a session; checks every ten seconds, which reconnect, expire and keep alive. src/common.c
-- has the handshake, the encryption and the key files that the loop and the start call, src/common.h
-- the replay window. main reads the options, the configuration file and the static key, and starts
-- the loop.
--
-- Files:
--   Prelude      shared names and lemmas: lists over the native numbers, bits, byte buffers, options
--   Crypto       libcrypto as a parameter: `Crypto` has its functions, `IsCrypto` what its
--                documentation promises of them (lengths, decryption undoes encryption, X25519 is
--                commutative); nothing says that it is hard to break
--   World        the operating system and the random generator as a parameter, `Env`, asked by the
--                number of the call, so that two calls may answer differently; `World` records
--                what was sent and written, and some of the lines that are logged
--   Hex          bytes_to_hex, hex_to_bytes (src/common.c)
--   Replay       check_replay (src/common.h); Shift and Digits have the arithmetic of the words,
--                Refines the contract, Runs whole histories
--   Packet       encrypt_packet, decrypt_packet (src/common.c)
--   Handshake    the handshake (src/common.c): parts that both sides share, Client (send), Client.Recv
--                (receive), Server (respond), and what they come to: Wire, Sent, Agreement, Safety
--   Node         the structures and static variables of src/peer.c
--   Sessions     find_..., alloc_session, route_lookup, check_allowed_src, session_init (src/peer.c)
--   Cidr         parse_cidr (src/peer.c), with inet_pton as a parameter; Mask has what a route matches
--   Config       load_config (src/peer.c): Values what a value does, Load the state machine, Check the
--                checks that main makes; Bounds, Invariant and Sound follow what is loaded, Ends the
--                fuel, Accepted the checks; Written has the events of a file and what they mean, Texts,
--                Reading, Peers and RoundTrip that they are loaded back
--   Keys         load_static_key, load_public_key, load_or_generate_static_key (src/common.c); Again
--                has a second run
--   Loop         event_loop and what it calls (src/peer.c): Report (handle_signal, print_sessions),
--                Send, Periodic, Response, Inbound, Data, Step are its parts in the order of the
--                source; Table, Still, Checks, Invariant follow the session table through it, Within
--                the indices of pending handshakes, Delivery, Forward, Once, Grace and Size the data,
--                Expiry and Timeout the periodic checks, Stop the signals, Collision the tie-breaking
--   Start        open_tunnel (src/common.c), start_peer and main (src/peer.c); Invariant and Ends have
--                what holds of a whole run
--   Decimal      numbers in decimal, as `%d` prints them; RoundTrip follows them through atoi
--   Log          the LOG_ macros (src/common.h), and the text of the lines that `World` records
--   Common       the prototypes of src/common.h as records, filled by the models of the functions,
--                and what two peers that call them may rely on
--   Tunnel       two peers and the network between them. Lookup, Send and Receive have the two halves of
--                a packet's way, Delivery the way itself and the relay; Stream has a lossy network,
--                Steps and Arrival what it carries; Begin, Ask, Answer and Able the sides of the first
--                handshake, Meet and Connect the handshake, Talk all of it; Slots, Due and Redial the
--                reconnecting. `IsReliable` and `IsAble` there say that the calls of the system
--                and of libcrypto do not fail
--   Tests        runs at concrete inputs, with a stand-in for libcrypto
--
-- How the model stands to the source. A pointer into a table is an index and NULL is `none`; an array
-- with its count is a list; an output buffer with its length is a list of bytes; a return value -1
-- is `none` or `false`. Functions that change the tables take a `Node` and give one back; what fails
-- keeps what it has already done. Numbers are unbounded, with the wrap of 64 bits written out for
-- the window's words and the sequence number of a session; times are seconds since 1970, and the
-- source's differences of two times are compared as sums, since a clock may be set back. An int of
-- the settings is an integer; atoi keeps the low 32 bits of a `long`, as glibc does. How much of a
-- new key file reaches the disk is a parameter, since the code does not look at it. A run of the loop
-- is a list of turns: the signals that arrive before stop_flag is read and before epoll_wait returns,
-- and what epoll_wait returns, with what is read from each descriptor. The other loops are recursion on a list or on the
-- number of rounds, but for that of load_config, which asks libyaml for events until the stream ends:
-- it has fuel, which is enough as soon as it is above the number of the call at which libyaml reports
-- an error or the end. libyaml, getopt, getaddrinfo, inet_pton, PEM files, ioctl and sockets are
-- parameters, as libcrypto is.
--
-- Not modelled: messages other than the lines of print_sessions and session_init and the last of
-- event_loop, the freeing of memory and closing of descriptors where no field shows it, socket options,
-- and an endpoint text of 255 characters or more, for which the code's behaviour is not defined.
-- rcunit/ is another project's library, tests/ and scripts/ only use the program.
pub mod Prelude
pub mod Crypto
pub mod World
pub mod Packet
pub mod Handshake
pub mod Hex
pub mod Replay
pub mod Node
pub mod Sessions
pub mod Loop
pub mod Cidr
pub mod Config
pub mod Keys
pub mod Start
pub mod Common
pub mod Decimal
pub mod Log
pub mod Tunnel
pub mod Tests
