-- ===== src/Rudp/Window/Reliable.antt =====
-- connection.c: the invariant of the sending side, over any sequence of events, and that no
-- accepted packet is lost.
use soter.Base.{
  ℕ, ◌+◌, ◌≤◌, ◌<◌, ◌≡◌, refl, sym, ap, ◌∙◌, inl, inr, Bool, true, false, List, [], ◌∷◌, arith, eqb,
  length, if◌then◌else◌, Bool-cases, All, u32_mod, eqb→eq, eqb_refl,
}
use soter.Proto.{Pack}
use soter.Rudp.{Conn, SendStatus, sent, conn_new, conn_send, send_window}
use soter.Rudp.Holes.{count_if, count_if-append}
use soter.Rudp.Ack.{handle_rack-closed}
use soter.Rudp.Timeouts.{timeouts-closed, Tracked}
use soter.Rudp.Window.{
  is_sent, pending_of, Accepted, conn_send-cases, Event, submit, acknowledge, tick, event, run,
  held, IsWindow, Uncovered, Step, held-fhost, submit-Step, acknowledge-Step, tick-Step,
}

run-closed : (es : List Event) (c : Conn) → c.closed ≡ true → (run c es).closed ≡ true
unfolding run event
run-closed [] c h = h
run-closed (e ∷ es) c h = run-closed es (event c e) (shut e)
  where
    shut : (e : Event) → (event c e).closed ≡ true
    shut (submit room now pkt) = elim (conn_send-cases room now c pkt) [
      | inl (ok, a) ↦ a.still ∙ h
      | inr r ↦ r.still ∙ h
    ]
    shut (acknowledge now pkt) = handle_rack-closed now c pkt ∙ h
    shut (tick now) = timeouts-closed now c h

event-Step :
    (c : Conn) (e : Event)
    → length c.fhost ≤ send_window
    → All Tracked c.fhost
    → (event c e).closed ≡ false
    → Step c e (event c e)
unfolding event
event-Step c (submit room now pkt) full tracked alive = submit-Step room now c pkt full tracked
event-Step c (acknowledge now pkt) full tracked alive = acknowledge-Step now c pkt full tracked
event-Step c (tick now) full tracked alive = tick-Step now c full tracked alive

step-IsWindow :
    (c : Conn) (e : Event)
    → IsWindow c
    → c.current_seq + 1 < u32_mod
    → (event c e).closed ≡ false
    → IsWindow (event c e) × ((event c e).current_seq ≤ c.current_seq + 1)
step-IsWindow c e w small alive =
    let s : Step c e (event c e) = event-Step c e w.full w.tracked alive in
    elim s.change [
      | inl m ↦ (
        record {
          full = s.full;
          tracked = s.tracked;
          once = λ k. omega (arith, m.fewer k, w.once k);
          past = λ k h. omega (arith, m.fewer k, w.past k (omega (arith, m.next, h)));
        },
        omega (arith, m.next),
      )
      | inr a ↦ (
        record {
          full = s.full;
          tracked = s.tracked;
          once = λ k. added_once k (a.numbers k);
          past = λ k h. added_past k (a.numbers k) (omega (arith, a.next, h));
        },
        omega (arith, a.next),
      )
    ]
  where
    added_once :
        (k : ℕ)
        → held k (event c e) ≡ held k c + (if eqb c.current_seq k then 1 else 0)
        → held k (event c e) ≤ 1
    added_once k h = elim (Bool-cases (eqb c.current_seq k)) [
      | inl same ↦
          let here : held k c ≡ 0 = w.past k (omega (arith, eqb→eq _ _ same)) in
          rw (h, same, here) (omega arith)
      | inr other ↦ rw (h, other) (omega (arith, w.once k))
    ]

    added_past :
        (k : ℕ)
        → held k (event c e) ≡ held k c + (if eqb c.current_seq k then 1 else 0)
        → c.current_seq + 1 ≤ k
        → held k (event c e) ≡ 0
    added_past k h far =
        let here : held k c ≡ 0 = w.past k (omega arith) in
        let other : eqb c.current_seq k ≡ false = ground arith in rw (h, other, here) refl

run_alive : (es : List Event) (c : Conn) → (run c es).closed ≡ false → c.closed ≡ false
run_alive es c h = elim (Bool-cases c.closed) [
  | inr alive ↦ alive
  | inl shut ↦ absurd (cc (run-closed es c shut, h))
]

Accepted-held :
    (now : ℕ) (c : Conn) (pkt : Pack) (r : SendStatus × Conn)
    → IsWindow c
    → Accepted now c pkt r
    → held c.current_seq r.1 ≡ 1
unfolding count_if
Accepted-held now c pkt r w a =
    let k = c.current_seq in
    let none_yet : count_if (λ p. eqb p.seq k) c.fhost ≡ 0 =
      sym (held-fhost k c) ∙ w.past k (omega arith) in
    rw (held-fhost k r.1, a.waits)
      (let parts = count_if-append (λ p. eqb p.seq k) c.fhost (pending_of k now a.copy ∷ []) in
        parts ∙ rw (none_yet, eqb_refl k) refl)

run-IsWindow :
    (es : List Event) (c : Conn)
    → IsWindow c
    → c.current_seq + length es < u32_mod
    → (run c es).closed ≡ false
    → IsWindow (run c es) × ((run c es).current_seq ≤ c.current_seq + length es)
unfolding run
run-IsWindow [] c w small alive = (w, omega arith)
run-IsWindow (e ∷ es) c w small alive =
    let (w', next) = step-IsWindow c e w (omega (arith, small)) (run_alive es (event c e) alive) in
    let (end, bound) = run-IsWindow es (event c e) w' (omega (arith, small, next)) alive in
    (end, omega (arith, bound, next))

run-stays :
    (es : List Event) (c : Conn) (k : ℕ)
    → IsWindow c
    → c.current_seq + length es < u32_mod
    → k < c.current_seq
    → All (Uncovered k) es
    → (run c es).closed ≡ false
    → held k (run c es) ≡ held k c
unfolding run
run-stays [] c k w small old u alive = refl
run-stays (e ∷ es) c k w small old (u, us) alive =
    let open_now : (event c e).closed ≡ false = run_alive es (event c e) alive in
    let (w', next) = step-IsWindow c e w (omega (arith, small)) open_now in
    let s : Step c e (event c e) = event-Step c e w.full w.tracked open_now in
    let (one, older) : (held k (event c e) ≡ held k c) × (k < (event c e).current_seq) =
      elim s.change [
        | inl m ↦ (m.stays k u, omega (arith, m.next, old))
        | inr a ↦
            let other : eqb c.current_seq k ≡ false = ground arith in
            (a.numbers k ∙ rw other (omega arith), omega (arith, a.next, old, small))
      ] in
    run-stays es (event c e) k w' (omega (arith, small, next)) older us alive ∙ one

new-IsWindow : (s u t : ℕ) → IsWindow (conn_new s u t)
unfolding conn_new held count_if
new-IsWindow s u t = record {
  full = omega arith;
  tracked = tt;
  once = λ k. omega arith;
  past = λ k h. refl;
}

pub Bounded : Conn → Type 0
Bounded c =
    (length c.fhost ≤ send_window)
    × ((k : ℕ) → held k c ≤ 1)
    × ((k : ℕ) → c.current_seq ≤ k → held k c ≡ 0)

-- Whatever the application sends, the peer acknowledges and the clock does, in fewer than 2^32
-- events that leave the connection open: at most 128 packets wait, no number waits twice, and only
-- numbers that were given out wait.
pub run-Bounded :
    (es : List Event) (s u t : ℕ)
    → length es < u32_mod
    → (run (conn_new s u t) es).closed ≡ false
    → Bounded (run (conn_new s u t) es)
unfolding conn_new Bounded
run-Bounded es s u t small alive =
    let (w, bound) =
      run-IsWindow es (conn_new s u t) (new-IsWindow s u t) (omega (arith, small)) alive in
    (w.full, w.once, w.past)

-- A connection after some events.
abbrev pub reached : ℕ → ℕ → ℕ → List Event → Conn
reached s u t before = run (conn_new s u t) before

-- A packet that `rudp_conn_send` accepts, on a connection after any events, is not lost: while no
-- acknowledgement covers its number and the connection stays open, it waits exactly once, whatever
-- else happens, fewer than 2^32 - 1 events in all.
pub run-reliable :
    (before after : List Event) (room : Bool) (now : ℕ) (pkt : Pack) (s u t : ℕ)
    → length before + length after + 1 < u32_mod
    → (conn_send room now (reached s u t before) pkt).0 ≡ sent
    → All (Uncovered (reached s u t before).current_seq) after
    → (run (conn_send room now (reached s u t before) pkt).1 after).closed ≡ false
    → held
        (reached s u t before).current_seq
        (run (conn_send room now (reached s u t before) pkt).1 after)
      ≡ 1
unfolding conn_new run event
run-reliable before after room now pkt s u t small ok us alive =
    let c : Conn = run (conn_new s u t) before in
    let c' : Conn = (conn_send room now c pkt).1 in
    let open_after : c'.closed ≡ false = run_alive after c' alive in
    elim (conn_send-cases room now c pkt) [
      | inr r ↦ absurd (cc (r.no, ap is_sent ok))
      | inl (ok', a) ↦
          let (w, bound) =
            run-IsWindow before (conn_new s u t) (new-IsWindow s u t) (omega (arith, small))
              a.alive in
          let (w', next) =
            step-IsWindow c (submit room now pkt) w (omega (arith, small, bound)) open_after in
          let older : c'.current_seq ≡ c.current_seq + 1 = omega (arith, a.next, small, bound) in
          run-stays after c' c.current_seq w' (omega (arith, small, bound, older))
            (omega (arith, older)) us alive
          ∙ Accepted-held now c pkt _ w a
    ]
