-- ===== src/Loop/Step.antt =====
-- The turns of `event_loop`, and the function itself.
use lane_cove_tunnel.Prelude.{
  Bool, true, false, ◌&&◌, none, some, List, [], ◌∷◌, ◌++◌, if◌then◌else◌,
}
use lane_cove_tunnel.Prelude.Bytes.{Bytes}
use lane_cove_tunnel.Crypto.{Crypto}
use lane_cove_tunnel.World.{Env, World, Addr, caught_signal, loop_terminated}
use lane_cove_tunnel.Node.{Self, Node}
use lane_cove_tunnel.Sessions.{find_index, time_now}
use lane_cove_tunnel.Loop.Report.{Signal, Flags, handle_signals, print_sessions}
use lane_cove_tunnel.Loop.Periodic.{periodic}
use lane_cove_tunnel.Loop.Response.{is_handshake, awaits, take_response}
use lane_cove_tunnel.Loop.Inbound.{handle_inbound}
use lane_cove_tunnel.Loop.Data.{handle_data, handle_tun}

-- What `epoll_wait` and the call that reads give for one of the two descriptors: a packet of the
-- TUN device, a datagram, or an error or hangup (a failed `read` or `recvfrom` too), which ends
-- the loop.
pub data Event : Type 0 where
  from_tun : Bytes → Event
  from_udp : Addr → Bytes → Event
  failed : Event

-- `epoll_wait`: -1 with EINTR, another -1, or the events.
pub data Wait : Type 0 where
  interrupted wait_failed : Wait
  woken : List Event → Wait

-- What comes from outside in a turn of the loop: the signals until `stop_flag` is read, those until
-- `epoll_wait` returns, and what it returns.
pub record Turn : Type 0 where
  pub before : List Signal
  pub during : List Signal
  pub wait : Wait

-- After `done:`, the line by which the loop ended.
unfoldable pub close_loop : Flags → World → World
close_loop flags w = record w {
  log = w.log ++ ((if flags.stop then caught_signal else loop_terminated) ∷ []);
}

module _ {PKey Ctx : Type 0} (c : Crypto PKey Ctx) (e : Env PKey) where
  -- A datagram: a response, a handshake, or data.
  unfoldable pub handle_udp : Self PKey → Addr → Bytes → Node PKey → World → Node PKey × World
  unfolding time_now
  handle_udp self src wire_buf node w =
      let (now, w) = time_now e w in
      if is_handshake self.psk_key wire_buf
      then (elim (find_index (awaits src) node.pending_hs) [
        | some j ↦ take_response c e self src wire_buf j node w
        | none ↦ handle_inbound c e self now src wire_buf node w
      ])
      else handle_data c e now src wire_buf node w

  -- The `for` loop over the events; `true` if the loop goes on.
  unfoldable pub handle_events :
      Self PKey → List Event → Node PKey → World → Bool × Node PKey × World
  handle_events self [] node w = (true, node, w)
  handle_events self (failed ∷ events) node w = (false, node, w)
  handle_events self (from_tun packet ∷ events) node w =
      let (node, w) = handle_tun c e packet node w in handle_events self events node w
  handle_events self (from_udp src wire_buf ∷ events) node w =
      let (node, w) = handle_udp self src wire_buf node w in handle_events self events node w

  -- What follows `epoll_wait`.
  unfoldable pub after_wait :
      Self PKey → Wait → Flags → Node PKey → World → Bool × Flags × Node PKey × World
  after_wait self interrupted flags node w = (true, flags, node, w)
  after_wait self wait_failed flags node w = (false, flags, node, w)
  after_wait self (woken events) flags node w =
      let shown = if flags.print then print_sessions node.sessions w else w in
      let (goes_on, node, w) = handle_events self events node shown in
      (goes_on, record flags { print = false }, node, w)

  -- The body of `while (!stop_flag)`; `true` if the loop goes on.
  unfoldable pub turn :
      Self PKey → Turn → Flags → Node PKey → World → Bool × Flags × Node PKey × World
  unfolding time_now
  turn self t flags node w =
      let (now, w) = time_now e w in
      let (node, w) = periodic c e self now node w in
      after_wait self t.wait (handle_signals t.during flags) node w

  -- `while (!stop_flag)`, with the end of the function where the loop ends. A list that is at its end
  -- is a loop that still waits.
  unfoldable pub run_turns : Self PKey → List Turn → Flags → Node PKey → World → Node PKey × World
  run_turns self [] flags node w = (node, w)
  run_turns self (t ∷ turns) flags node w =
      let read = handle_signals t.before flags in
      let (goes_on, flags', node', w') = turn self t read node w in
      let rest = run_turns self turns flags' node' w' in
      if read.stop
      then (node, close_loop read w)
      else if goes_on
      then rest
      else (node', close_loop flags' w')

  -- Whether the loop ends within the turns, or still waits after them.
  unfoldable pub turns_end : Self PKey → List Turn → Flags → Node PKey → World → Bool
  turns_end self [] flags node w = false
  turns_end self (t ∷ turns) flags node w =
      let read = handle_signals t.before flags in
      let (goes_on, flags', node', w') = turn self t read node w in
      let rest = turns_end self turns flags' node' w' in
      if read.stop then true else if goes_on then rest else true

  -- The function: whether the two cipher contexts and `epoll_create1` were got, and the turns of the
  -- loop.
  unfoldable pub event_loop :
      Self PKey → Bool → Bool → List Turn → Flags → Node PKey → World → Node PKey × World
  event_loop self got_contexts got_epoll turns flags node w =
      if got_contexts && got_epoll
      then run_turns self turns flags (record node { last_rekey_check = 0 }) w
      else (node, w)

  -- Whether the function returns within the turns.
  unfoldable pub event_loop_ends :
      Self PKey → Bool → Bool → List Turn → Flags → Node PKey → World → Bool
  event_loop_ends self got_contexts got_epoll turns flags node w =
      if got_contexts && got_epoll
      then turns_end self turns flags (record node { last_rekey_check = 0 }) w
      else true
