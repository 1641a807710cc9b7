-- ===== src/Loop/Stop.antt =====
-- SIGTERM and SIGINT, and the loop of `event_loop` (src/peer.c).
use lane_cove_tunnel.Prelude.{
  ◌≡◌, refl, arith, if◌then◌else◌, Bool, true, false, ◌&&◌, ◌||◌, List, [], ◌∷◌, ◌++◌, Bool-cases,
  if_related, inl, inr,
}
use lane_cove_tunnel.Crypto.{Crypto}
use lane_cove_tunnel.World.{Env, World}
use lane_cove_tunnel.Node.{Self, Node}
use lane_cove_tunnel.Loop.Report.{
  Signal, sigterm, sigint, sigusr1, Flags, handle_signal, handle_signals,
}
use lane_cove_tunnel.Loop.Step.{
  Wait, interrupted, wait_failed, woken, Turn, after_wait, turn, close_loop, run_turns, event_loop,
  turns_end, event_loop_ends,
}

-- One of the signals asks the program to stop.
abbrev pub asks_stop : List Signal → Bool
asks_stop [] = false
asks_stop (sigusr1 ∷ signals) = asks_stop signals
asks_stop (sigterm ∷ signals) = true
asks_stop (sigint ∷ signals) = true

stop_stays :
    (signals : List Signal) (flags : Flags)
    → flags.stop ≡ true
    → (handle_signals signals flags).stop ≡ true
unfolding handle_signals handle_signal
stop_stays [] flags h = h
stop_stays (sigterm ∷ signals) flags h = stop_stays signals (record flags { stop = true }) refl
stop_stays (sigint ∷ signals) flags h = stop_stays signals (record flags { stop = true }) refl
stop_stays (sigusr1 ∷ signals) flags h = stop_stays signals (record flags { print = true }) h

stop_set :
    (signals : List Signal) (flags : Flags)
    → asks_stop signals ≡ true
    → (handle_signals signals flags).stop ≡ true
unfolding handle_signals handle_signal
stop_set [] flags h = cc
stop_set (sigterm ∷ signals) flags h = stop_stays signals (record flags { stop = true }) refl
stop_set (sigint ∷ signals) flags h = stop_stays signals (record flags { stop = true }) refl
stop_set (sigusr1 ∷ signals) flags h = stop_set signals (record flags { print = true }) h

-- The same but for the lines of the log.
abbrev pub IsSameButLog : {PKey : Type 0} → Node PKey × World → Node PKey × World → Type 0
IsSameButLog (node, w) (node', w') =
    (node ≡ node') × (w.calls ≡ w'.calls) × (w.sent ≡ w'.sent) × (w.written ≡ w'.written)

module _ {PKey Ctx : Type 0} (c : Crypto PKey Ctx) (e : Env PKey) (self : Self PKey) where
  after_wait_stop :
      (wait : Wait) (flags : Flags) (node : Node PKey) (w : World)
      → flags.stop ≡ true
      → (after_wait c e self wait flags node w).1.stop ≡ true
  unfolding after_wait
  after_wait_stop interrupted flags node w h = h
  after_wait_stop wait_failed flags node w h = h
  after_wait_stop (woken events) flags node w h = h

  turn_stop :
      (t : Turn) (flags : Flags) (node : Node PKey) (w : World)
      → asks_stop t.during ≡ true
      → (turn c e self t flags node w).1.stop ≡ true
  unfolding turn
  turn_stop t flags node w h = after_wait_stop t.wait _ _ _ (stop_set t.during flags h)

  -- A turn whose beginning finds the flag set does nothing, and is the last one.
  stopped-IsSameButLog :
      (turns : List Turn) (flags : Flags) (node : Node PKey) (w : World)
      → flags.stop ≡ true
      → IsSameButLog (run_turns c e self turns flags node w) (node, w)
  unfolding run_turns close_loop
  stopped-IsSameButLog [] flags node w h = (refl, refl, refl, refl)
  stopped-IsSameButLog (t ∷ turns) flags node w h =
      rw (run_turns, stop_stays t.before flags h) (refl, refl, refl, refl)

  -- Two runs of the rest after a first turn.
  first-IsSameButLog :
      (t : Turn) (turns turns' : List Turn) (flags : Flags) (node : Node PKey) (w : World)
      → let (goes_on, flags', node', w') = turn c e self t (handle_signals t.before flags) node w in
        IsSameButLog
          (run_turns c e self turns flags' node' w')
          (run_turns c e self turns' flags' node' w')
        → IsSameButLog
            (run_turns c e self (t ∷ turns) flags node w)
            (run_turns c e self (t ∷ turns') flags node w)
  unfolding run_turns
  first-IsSameButLog t turns turns' flags node w same =
      let read = handle_signals t.before flags in
      if_related IsSameButLog read.stop _ _ _ _ (refl, refl, refl, refl)
        (if_related IsSameButLog (turn c e self t read node w).0 _ _ _ _ same
          (refl, refl, refl, refl))

  before-IsSameButLog :
      (earlier : List Turn) (t : Turn) (later : List Turn) (flags : Flags) (node : Node PKey)
      (w : World)
      → asks_stop t.before ≡ true
      → IsSameButLog
          (run_turns c e self (earlier ++ (t ∷ later)) flags node w)
          (run_turns c e self earlier flags node w)
  unfolding run_turns close_loop
  before-IsSameButLog [] t later flags node w h =
      rw (run_turns, stop_set t.before flags h) (refl, refl, refl, refl)
  before-IsSameButLog (s ∷ earlier) t later flags node w h =
      let (_, flags', node', w') = turn c e self s (handle_signals s.before flags) node w in
      first-IsSameButLog s (earlier ++ (t ∷ later)) earlier flags node w
        (before-IsSameButLog earlier t later flags' node' w' h)

  during-IsSameButLog :
      (earlier : List Turn) (t : Turn) (later : List Turn) (flags : Flags) (node : Node PKey)
      (w : World)
      → asks_stop t.during ≡ true
      → IsSameButLog
          (run_turns c e self (earlier ++ (t ∷ later)) flags node w)
          (run_turns c e self (earlier ++ (t ∷ [])) flags node w)
  unfolding run_turns
  during-IsSameButLog [] t later flags node w h =
      let (_, flags', node', w') = turn c e self t (handle_signals t.before flags) node w in
      first-IsSameButLog t later [] flags node w (
        stopped-IsSameButLog later flags' node' w'
          (turn_stop t (handle_signals t.before flags) node w h))
  during-IsSameButLog (s ∷ earlier) t later flags node w h =
      let (_, flags', node', w') = turn c e self s (handle_signals s.before flags) node w in
      first-IsSameButLog s (earlier ++ (t ∷ later)) (earlier ++ (t ∷ [])) flags node w
        (during-IsSameButLog earlier t later flags' node' w' h)

  same_start :
      (got_contexts got_epoll : Bool) (turns turns' : List Turn) (flags : Flags) (node : Node PKey)
      (w : World)
      → IsSameButLog
          (run_turns c e self turns flags (record node { last_rekey_check = 0 }) w)
          (run_turns c e self turns' flags (record node { last_rekey_check = 0 }) w)
      → IsSameButLog
          (event_loop c e self got_contexts got_epoll turns flags node w)
          (event_loop c e self got_contexts got_epoll turns' flags node w)
  unfolding event_loop
  same_start got_contexts got_epoll turns turns' flags node w same =
      elim (Bool-cases (got_contexts && got_epoll)) [
        | inl got ↦ rw (event_loop, got) same
        | inr missing ↦ rw (event_loop, missing) (refl, refl, refl, refl)
      ]

  -- SIGTERM or SIGINT before `stop_flag` is read: the loop ends there, and whatever would come in that
  -- turn and later has no effect, but for the line that is logged.
  pub event_loop_stop_before :
      (got_contexts got_epoll : Bool) (earlier : List Turn) (t : Turn) (later : List Turn)
      (flags : Flags) (node : Node PKey) (w : World)
      → asks_stop t.before ≡ true
      → IsSameButLog
          (event_loop c e self got_contexts got_epoll (earlier ++ (t ∷ later)) flags node w)
          (event_loop c e self got_contexts got_epoll earlier flags node w)
  event_loop_stop_before got_contexts got_epoll earlier t later flags node w h =
      same_start got_contexts got_epoll (earlier ++ (t ∷ later)) earlier flags node w
        (before-IsSameButLog earlier t later flags (record node { last_rekey_check = 0 }) w h)

  -- SIGTERM or SIGINT in the middle of a turn, while `epoll_wait` sleeps: that turn is the last one, and
  -- whatever would come later has no effect, but for the line that is logged.
  pub event_loop_stop_during :
      (got_contexts got_epoll : Bool) (earlier : List Turn) (t : Turn) (later : List Turn)
      (flags : Flags) (node : Node PKey) (w : World)
      → asks_stop t.during ≡ true
      → IsSameButLog
          (event_loop c e self got_contexts got_epoll (earlier ++ (t ∷ later)) flags node w)
          (event_loop c e self got_contexts got_epoll (earlier ++ (t ∷ [])) flags node w)
  event_loop_stop_during got_contexts got_epoll earlier t later flags node w h =
      same_start got_contexts got_epoll (earlier ++ (t ∷ later)) (earlier ++ (t ∷ [])) flags node w
        (during-IsSameButLog earlier t later flags (record node { last_rekey_check = 0 }) w h)

all_true : (a b rest : Bool) → rest ≡ true → (if a then true else if b then rest else true) ≡ true
all_true a b rest h = ground (arith, h)

-- A stopping signal comes before one of the turns.
abbrev pub stops : List Turn → Bool
stops [] = false
stops (t ∷ turns) = asks_stop t.before || stops turns

module _ {PKey Ctx : Type 0} (c : Crypto PKey Ctx) (e : Env PKey) (self : Self PKey) where
  turns_end-stops :
      (turns : List Turn) (flags : Flags) (node : Node PKey) (w : World)
      → stops turns ≡ true
      → turns_end c e self turns flags node w ≡ true
  unfolding turns_end
  turns_end-stops [] flags node w h = cc h
  turns_end-stops (t ∷ turns) flags node w h =
      let read = handle_signals t.before flags in
      let (goes_on, flags', node', w') = turn c e self t read node w in
      elim (Bool-cases (asks_stop t.before)) [
        | inl asked ↦ let stopped = stop_set t.before flags asked in rw (stopped, turns_end) refl
        | inr not_yet ↦
            all_true read.stop goes_on _ (turns_end-stops turns flags' node' w' (rw not_yet at h))
      ]

  -- The loop does not outlast a stopping signal.
  pub event_loop_ends-stops :
      (got_contexts got_epoll : Bool) (turns : List Turn) (flags : Flags) (node : Node PKey)
      (w : World)
      → stops turns ≡ true
      → event_loop_ends c e self got_contexts got_epoll turns flags node w ≡ true
  unfolding event_loop_ends
  event_loop_ends-stops got_contexts got_epoll turns flags node w h =
      elim (Bool-cases (got_contexts && got_epoll)) [
        | inl got ↦ rw (got, event_loop_ends) (turns_end-stops turns flags _ w h)
        | inr missing ↦ rw (missing, event_loop_ends) refl
      ]
