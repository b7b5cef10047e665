-- ===== src/Watcher/Backlog.antt =====
-- system.c: packets that come in faster than the thread's rounds.
use soter.Base.{
  ℕ, ◌+◌, ◌≤◌, Bool, true, false, List, [], ◌∷◌, ◌++◌, arith, length, length-append, if◌then◌else◌,
}
use soter.Proto.{Pack}
use soter.Watcher.{Watcher, Entry, pass, worker}

-- A packet is passed, or the thread goes through a round.
pub data Event (Sock : Type 0) : Type 0 where
  passed : Pack → Sock → Event Sock
  round : Event Sock

module _ {Handler Sock : Type 0} where
  unfoldable pub step : Event Sock → Watcher Handler Sock → Watcher Handler Sock
  step (passed pack from_who) w = pass w pack from_who
  step round w = (worker w).1

  unfoldable pub run : List (Event Sock) → Watcher Handler Sock → Watcher Handler Sock
  unfolding step
  run [] w = w
  run (e ∷ events) w = run events (step e w)

  -- At least so many packets wait behind those that the event stands for.
  abbrev pub Lags : ℕ → Watcher Handler Sock → Type 0
  Lags n w = n + (if w.newpack then 1 else 0) ≤ length w.passed_packets

  worker-Lags :
      (n : ℕ) (hs : List (Entry Handler)) (on : Bool) (ps : List (Pack × Sock))
      → Lags n (record { passed_packets = ps; newpack = on; handlers = hs })
      → Lags n (worker (record { passed_packets = ps; newpack = on; handlers = hs })).1
  unfolding worker
  worker-Lags n hs false ps h = h
  worker-Lags n hs true [] h = omega (arith, h)
  worker-Lags n hs true (p ∷ rest) h = omega (arith, h)

  step-Lags : (n : ℕ) (e : Event Sock) (w : Watcher Handler Sock) → Lags n w → Lags n (step e w)
  unfolding step pass
  step-Lags n (passed pack from_who) w h =
      ground (arith, h, length-append w.passed_packets ((pack, from_who) ∷ []))
  step-Lags n round w h = worker-Lags n w.handlers w.newpack w.passed_packets h

  run-Lags :
      (n : ℕ) (events : List (Event Sock)) (w : Watcher Handler Sock)
      → Lags n w
      → Lags n (run events w)
  unfolding run
  run-Lags n [] w h = h
  run-Lags n (e ∷ events) w h = run-Lags n events (step e w) (step-Lags n e w h)

  behind : (w : Watcher Handler Sock) → Lags 1 w → 1 ≤ length w.passed_packets
  behind w h = omega (arith, h)

  -- Where two packets are passed to a watcher before its thread wakes up, then after any further
  -- packets and rounds, in any order and any number, a packet is still waiting: each round takes only
  -- one packet, and needs a new one to wake up.
  pub run-behind :
      (w : Watcher Handler Sock) (a b : Pack) (from_a from_b : Sock) (events : List (Event Sock))
      → 1 ≤ length (run (passed a from_a ∷ passed b from_b ∷ events) w).passed_packets
  unfolding run step pass
  run-behind w a b from_a from_b events =
      let after : Watcher Handler Sock = pass (pass w a from_a) b from_b in
      let two : Lags 1 after = omega (
        arith,
        length-append w.passed_packets ((a, from_a) ∷ []),
        length-append (w.passed_packets ++ ((a, from_a) ∷ [])) ((b, from_b) ∷ []),
      ) in
      behind (run events after) (run-Lags 1 events after two)
