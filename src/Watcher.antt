-- ===== src/Watcher.antt =====
-- code/devcore/watcher/src/system.c: packets that are passed to the handlers of their types by a thread.
-- A handler is what is called with the packet, where it came from and the context of its type.
pub mod Backlog
use soter.Base.{
  ℕ, zero, suc, ◌+◌, Bool, true, false, not, Option, none, some, List, [], ◌∷◌, ◌++◌, ltb, leb,
  if◌then◌else◌, get_elem?, set, replicate,
}
use soter.Proto.{Pack, is_rudp_req, type_max}

-- `watcher_handler`; `foo` may be null.
pub record Entry (Handler : Type 0) : Type 0 where
  pub foo : Option Handler
  pub ctx : ℕ

-- `watcher`: the packets passed to it, whether its event is signalled, and the handlers.
pub record Watcher (Handler Sock : Type 0) : Type 0 where
  pub passed_packets : List (Pack × Sock)
  pub newpack : Bool
  pub handlers : List (Entry Handler)

-- A call of a handler: with its context, the packet and the sender's address.
pub record Call (Handler Sock : Type 0) : Type 0 where
  pub foo : Handler
  pub ctx : ℕ
  pub pack : Pack
  pub from_who : Sock

module _ {Handler Sock : Type 0} where
  -- `opened` tells whether the event could be made.
  pub init : Bool → Option (Watcher Handler Sock)
  init opened =
      if opened
      then some (record {
        passed_packets = [];
        newpack = false;
        handlers = replicate type_max (record { foo = none; ctx = 0 });
      })
      else none

  -- `none` is a write past the table.
  pub set_context : Watcher Handler Sock → ℕ → ℕ → Option (Watcher Handler Sock)
  set_context w type ctx = elim (get_elem? w.handlers type) [
    | none ↦ none
    | some e ↦
        let with_ctx : Entry Handler = record e { ctx = ctx } in
        some (record w { handlers = set w.handlers type with_ctx })
  ]

  pub handler_reg : Watcher Handler Sock → ℕ → Entry Handler → Bool × Watcher Handler Sock
  handler_reg w type handler =
      if leb type_max type
      then (false, w)
      else (true, record w { handlers = set w.handlers type handler })

  unfoldable pub pass : Watcher Handler Sock → Pack → Sock → Watcher Handler Sock
  pass w pack from_who = record w {
    passed_packets = w.passed_packets ++ ((pack, from_who) ∷ []);
    newpack = true;
  }

  -- What is done with one packet: nothing where it belongs to RUDP, has no known type or no handler.
  unfoldable pub perform : Watcher Handler Sock → Pack → Sock → Option (Call Handler Sock)
  perform w pkt from_who =
      if is_rudp_req pkt.packtype
      then none
      else if leb type_max pkt.packtype
      then none
      else elim (get_elem? w.handlers pkt.packtype) [
        | none ↦ none
        | some e ↦ elim e.foo [
          | none ↦ none
          | some foo ↦ some (record { foo = foo; ctx = e.ctx; pack = pkt; from_who = from_who })
        ]
      ]

  -- One round of the thread: the event is drained and one packet taken.
  unfoldable pub worker : Watcher Handler Sock → Option (Call Handler Sock) × Watcher Handler Sock
  unfolding perform
  worker w = if not w.newpack then (none, w) else elim w.passed_packets [
    | [] ↦ (none, record w { newpack = false })
    | p ∷ rest ↦ (perform w p.0 p.1, record w { newpack = false; passed_packets = rest })
  ]
