-- ===== src/Tests/Connections.antt =====
-- connection.c and dispatcher.c on short histories.
use soter.Base.{
  map, ◌++◌, ℕ, ◌<◌, ◌≡◌, ◌⊎◌, ◌||◌, ◌&&◌, refl, true, false, some, List, [], ◌∷◌, ◌++◌, arith,
  length, ltb, u32_max, All,
}
use soter.Proto.{Pack, copy_pack, pack_data, filled}
use soter.Rudp.{Conn, Pending, conn_new, conn_send, in_flight, retransmission_cap}
use soter.Rudp.Holes.{count_if, fill}
use soter.Rudp.Reorder.{next_of, flush, drain, reordering}
use soter.Rudp.Reorder.InOrder.{Consecutive, arrive, process, receive, run-Consecutive}
use soter.Rudp.Reorder.InOrder
use soter.Rudp.Reorder.Complete.{has, accepted, Ascending, reordering_keeps, reordering_complete}
use soter.Rudp.Ack.{handle_rack, handle_rack-fhost}
use soter.Rudp.Timeouts.{timeouts, timeouts_lem, Tracked, renewed, long_waiting, seqs, capped_out}
use soter.Rudp.Handler.{handle_data, handle_data_lem, taken_in, IsAck}
use soter.Rudp.Handler
use soter.Rudp.Window.{event, Event, submit, acknowledge, tick, run, held, Uncovered}
use soter.Rudp.Window.Reliable.{Bounded, reached, run-Bounded, run-reliable}

abbrev data_pack : ℕ → Pack
data_pack seq = filled seq 2 1 pack_data 1 (65 ∷ [])

abbrev conn : Conn
conn = conn_new 1 2 0

-- Received out of order: 1 and then 0.
run-Consecutive_example :
    let (got_packets, end) =
      InOrder.run
        (arrive (data_pack 1) ∷ process ∷ arrive (data_pack 0) ∷ process ∷ receive ∷ [])
        conn in
    Consecutive 0 (got_packets ++ end.reordered)
run-Consecutive_example =
    run-Consecutive 1 2 0
      (arrive (data_pack 1) ∷ process ∷ arrive (data_pack 0) ∷ process ∷ receive ∷ [])

abbrev both_waiting : Conn
both_waiting = record conn { net = data_pack 1 ∷ data_pack 0 ∷ [] }

reordering_keeps_example :
    let f =
      flush both_waiting.last_recved_seq (drain both_waiting.last_recved_seq [] both_waiting.net) in
    ((reordering both_waiting).reordered ≡ f.passed)
    × ((has 1 f.passed || has 1 (reordering both_waiting).reorder_buf)
        ≡ (has 1 [] || accepted both_waiting.last_recved_seq 1 both_waiting.net))
unfolding conn_new
reordering_keeps_example = reordering_keeps both_waiting 1

reordering_complete_example :
    let c' = reordering both_waiting in
    Ascending (next_of c'.last_recved_seq) c'.reorder_buf
    × (has (next_of c'.last_recved_seq) c'.reorder_buf ≡ false)
unfolding conn_new next_of
reordering_complete_example =
    reordering_complete both_waiting (omega arith) (omega arith, (omega arith, tt)) tt

-- The last number due is 2^32 - 1, and packet 0 comes before it.
abbrev at_wrap : Conn
at_wrap = record conn { last_recved_seq = 4294967294 }

abbrev waiting : ℕ → ℕ → Pending
waiting seq count = record {
  seq = seq;
  timestamp = 0;
  copy = some (data_pack seq);
  state = in_flight;
  retransmit_count = count;
}

abbrev three_pending : Conn
three_pending = record conn { fhost = waiting 3 0 ∷ waiting 4 0 ∷ waiting 5 2 ∷ [] }

handle_rack-fhost_example :
    count_if (λ _. true) (handle_rack 100 three_pending (data_pack 4)).fhost
    ≡ count_if (λ p. ltb 4 p.seq && true) three_pending.fhost
handle_rack-fhost_example = handle_rack-fhost 100 three_pending (data_pack 4) (λ _. true)

three_pending-Tracked : All Tracked three_pending.fhost
unfolding Tracked
three_pending-Tracked =
    ((data_pack 3, refl, refl), ((data_pack 4, refl, refl), ((data_pack 5, refl, refl), tt)))

timeouts_lem_example :
    let (good, c') = timeouts 500 three_pending in
    ((good ≡ true)
      × All (λ p. p.retransmit_count < retransmission_cap) three_pending.fhost
      × (seqs c'.fhost ≡ seqs three_pending.fhost)
      × All Tracked c'.fhost
      × (c'.fhost ≡ map (renewed 500 250) three_pending.fhost)
      × (c'.outbox ≡ three_pending.outbox ++ long_waiting 500 250 three_pending.fhost)
      × (c'.closed ≡ three_pending.closed))
    ⊎ ((good ≡ false)
        × (0 < count_if capped_out three_pending.fhost)
        × (length c'.fhost < length three_pending.fhost)
        × (c'.closed ≡ true))
unfolding conn_new
timeouts_lem_example = timeouts_lem 500 three_pending three_pending-Tracked

handle_data_lem_example :
    let c' = handle_data true 10 conn (data_pack 0) in
    let t = taken_in conn (data_pack 0) in
    (c'.reordered ≡ t.reordered)
    × (c'.last_recved_seq ≡ t.last_recved_seq)
    × (((c'.outbox ≡ []) × ((0 ≡ next_of conn.last_recved_seq) ⊎ (t.last_recved_seq ≡ u32_max)))
        ⊎ ((p : Pack) × IsAck conn c' p × Handler.Bounded c'.ack_threshold))
unfolding conn_new
handle_data_lem_example = handle_data_lem 10 conn (data_pack 0)

abbrev history : List Event
history =
    submit true 1 (data_pack 9)
    ∷ tick 2
    ∷ acknowledge 3 (data_pack 0)
    ∷ submit true 4 (data_pack 9)
    ∷ []

run-Bounded_example : Bounded (run conn history)
unfolding conn_new run event conn_send copy_pack handle_rack fill timeouts
run-Bounded_example = run-Bounded history 1 2 0 (omega arith) refl

abbrev later : List Event
later = tick 700 ∷ acknowledge 800 (data_pack 1) ∷ submit true 900 (data_pack 9) ∷ []

run-reliable_example :
    held
      (reached 1 2 0 history).current_seq
      (run (conn_send true 5 (reached 1 2 0 history) (data_pack 9)).1 later)
    ≡ 1
unfolding conn_new run event conn_send copy_pack handle_rack fill timeouts Uncovered
run-reliable_example =
    run-reliable history later true 5 (data_pack 9) 1 2 0 (omega arith) refl
      (tt, (omega arith, (tt, tt))) refl
