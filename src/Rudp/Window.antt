-- ===== src/Rudp/Window.antt =====
-- connection.c and dispatcher.c: the sending side of a connection over any sequence of sends,
-- acknowledgements and timeouts.  A packet that `rudp_conn_send` accepted waits, once, until an
-- acknowledgement covers its number.
pub mod Reliable
use soter.Base.{
  ℕ, zero, suc, ◌+◌, ◌≤◌, ◌<◌, ◌≡◌, refl, sym, ap, ◌∙◌, ◌⊎◌, inl, inr, Bool, true, false, ◌&&◌,
  Option, none, some, List, [], ◌∷◌, ◌++◌, arith, leb, ltb, eqb, length, if◌then◌else◌, Bool-cases,
  Option-cases, All, All-append, length-map, map, add32, u32_mod, length-append, not-leb→lt, eqb→eq,
  eqb_refl,
}
use soter.Proto.{Pack, copy_pack}
use soter.Rudp.{
  Conn, Pending, in_flight, SendStatus, sent, not_connected, try_again, failed, overread, conn_new,
  conn_send, send_window,
}
use soter.Rudp.Holes.{
  count_if, count_if-append, count_if-map, count_if_le, count_if-always, count_if-both,
  count_if_cong,
}
use soter.Rudp.Ack.{
  handle_rack, handle_rack-fhost, handle_rack-All, handle_rack-current_seq, handle_rack-closed,
}
use soter.Rudp.Timeouts.{
  timeouts, timeouts_lem, timeouts-current_seq, timeouts-closed, Tracked, seqs,
}

abbrev pub is_sent : SendStatus → Bool
is_sent sent = true
is_sent not_connected = false
is_sent try_again = false
is_sent failed = false
is_sent overread = false

abbrev pub pending_of : ℕ → ℕ → Pack → Pending
pending_of seq now q = record {
  seq = seq;
  timestamp = now;
  copy = some (record q { seq = seq });
  state = in_flight;
  retransmit_count = 0;
}

-- The call was accepted: there was room, and the numbered copy went out and waits.
pub record Accepted (now : ℕ) (c : Conn) (pkt : Pack) (r : SendStatus × Conn) : Type 0 where
  pub alive : c.closed ≡ false
  pub room : length c.fhost < send_window
  pub copy : Pack
  pub copied : copy_pack pkt ≡ some copy
  pub waits : r.1.fhost ≡ c.fhost ++ (pending_of c.current_seq now copy ∷ [])
  pub went : r.1.outbox ≡ c.outbox ++ (record copy { seq = c.current_seq } ∷ [])
  pub next : r.1.current_seq ≡ add32 c.current_seq 1
  pub still : r.1.closed ≡ c.closed

-- It was not: nothing waits that did not.
pub record Refused (c : Conn) (r : SendStatus × Conn) : Type 0 where
  pub no : is_sent r.0 ≡ false
  pub waits : r.1.fhost ≡ c.fhost
  pub next : r.1.current_seq ≡ c.current_seq
  pub still : r.1.closed ≡ c.closed

pub conn_send-cases :
    (room : Bool) (now : ℕ) (c : Conn) (pkt : Pack)
    → let r = conn_send room now c pkt in
      ((is_sent r.0 ≡ true) × Accepted now c pkt r) ⊎ Refused c r
unfolding conn_send
conn_send-cases room now c pkt = elim (Bool-cases c.closed) [
  | inl shut ↦
      inr (simp (conn_send, shut) (record { no = refl; waits = refl; next = refl; still = refl }))
  | inr alive ↦ elim (Bool-cases (leb send_window (length c.fhost))) [
    | inl full ↦ inr (
        simp (conn_send, alive, full)
          (record { no = refl; waits = refl; next = refl; still = refl }))
    | inr space ↦ elim (Option-cases (copy_pack pkt)) [
      | inl bad ↦ inr (
          simp (conn_send, alive, space, bad)
            (record { no = refl; waits = refl; next = refl; still = refl }))
      | inr (q, good) ↦ elim (Bool-cases room) [
        | inr poor ↦ inr (
            simp (conn_send, alive, space, good, poor)
              (record { no = refl; waits = refl; next = refl; still = sym alive }))
        | inl rich ↦ inl (
            simp (conn_send, alive, space, good, rich)
              (
                refl,
                record {
                  alive = alive;
                  room = not-leb→lt _ _ space;
                  copy = q;
                  copied = good;
                  waits = refl;
                  went = refl;
                  next = refl;
                  still = sym alive;
                },
              ))
      ]
    ]
  ]
]

pub data Event : Type 0 where
  submit : Bool → ℕ → Pack → Event
  acknowledge : ℕ → Pack → Event
  tick : ℕ → Event

unfoldable pub event : Conn → Event → Conn
event c (submit room now pkt) = (conn_send room now c pkt).1
event c (acknowledge now pkt) = handle_rack now c pkt
event c (tick now) = (timeouts now c).1

unfoldable pub run : Conn → List Event → Conn
unfolding event
run c [] = c
run c (e ∷ es) = run (event c e) es

-- How many packets with a number wait.
pub held : ℕ → Conn → ℕ
held k c = count_if (λ n. eqb n k) (seqs c.fhost)

pub record IsWindow (c : Conn) : Type 0 where
  pub full : length c.fhost ≤ send_window
  pub tracked : All Tracked c.fhost
  pub once : (k : ℕ) → held k c ≤ 1
  pub past : (k : ℕ) → c.current_seq ≤ k → held k c ≡ 0

-- No acknowledgement of the list covers a number.
unfoldable pub Uncovered : ℕ → Event → Type 0
Uncovered k (submit room now pkt) = Unit
Uncovered k (acknowledge now pkt) = pkt.seq < k
Uncovered k (tick now) = Unit

-- What an event did to the numbers that wait: none came, and none went but to an acknowledgement;
-- or the current number came.
pub record Same (c : Conn) (e : Event) (c' : Conn) : Type 0 where
  pub next : c'.current_seq ≡ c.current_seq
  pub fewer : (k : ℕ) → held k c' ≤ held k c
  pub stays : (k : ℕ) → Uncovered k e → held k c' ≡ held k c

pub record Added (c c' : Conn) : Type 0 where
  pub next : c'.current_seq ≡ add32 c.current_seq 1
  pub numbers : (k : ℕ) → held k c' ≡ held k c + (if eqb c.current_seq k then 1 else 0)

pub record Step (c : Conn) (e : Event) (c' : Conn) : Type 0 where
  pub full : length c'.fhost ≤ send_window
  pub tracked : All Tracked c'.fhost
  pub change : Same c e c' ⊎ Added c c'

pub held-fhost : (k : ℕ) (c : Conn) → held k c ≡ count_if (λ p. eqb p.seq k) c.fhost
unfolding held
held-fhost k c = count_if-map (λ n. eqb n k) (λ p. p.seq) c.fhost

held_same : (k : ℕ) (c c' : Conn) → seqs c'.fhost ≡ seqs c.fhost → held k c' ≡ held k c
unfolding held
held_same k c c' e = ap (count_if (λ n. eqb n k)) e

length_same : (xs ys : List Pending) → seqs xs ≡ seqs ys → length xs ≡ length ys
length_same xs ys e = sym (length-map (λ p. p.seq) xs) ∙ ap length e ∙ length-map (λ p. p.seq) ys

pub submit-Step :
    (room : Bool) (now : ℕ) (c : Conn) (pkt : Pack)
    → length c.fhost ≤ send_window
    → All Tracked c.fhost
    → Step c (submit room now pkt) (conn_send room now c pkt).1
unfolding Tracked count_if
submit-Step room now c pkt full tracked = elim (conn_send-cases room now c pkt) [
  | inr r ↦
      let same : (k : ℕ) → held k (conn_send room now c pkt).1 ≡ held k c =
        λ k. held_same k c _ (ap seqs r.waits) in
      record {
        full = rw r.waits full;
        tracked = rw r.waits tracked;
        change =
            inl
              (record { next = r.next; fewer = λ k. omega (arith, same k); stays = λ k u. same k });
      }
  | inl (ok, a) ↦
      let new : Pending = pending_of c.current_seq now a.copy in
      record {
        full = rw a.waits (omega (arith, length-append c.fhost (new ∷ []), a.room));
        tracked = rw a.waits (All-append Tracked c.fhost (new ∷ []) tracked ((_, refl, refl), tt));
        change = inr (record {
          next = a.next;
          numbers = λ k.
              rw (held-fhost k (conn_send room now c pkt).1, held-fhost k c, a.waits)
                (omega (arith, count_if-append (λ p. eqb p.seq k) c.fhost (new ∷ [])));
        });
      }
]

covered_test : (n k s : ℕ) → n < k → ltb n s && eqb s k ≡ eqb s k
covered_test n k s h = ground arith

pub acknowledge-Step :
    (now : ℕ) (c : Conn) (pkt : Pack)
    → length c.fhost ≤ send_window
    → All Tracked c.fhost
    → Step c (acknowledge now pkt) (handle_rack now c pkt)
unfolding Uncovered
acknowledge-Step now c pkt full tracked = record {
  full =
      let n = handle_rack-fhost now c pkt (λ _. true) in
      omega (
        arith,
        n,
        count_if-always (handle_rack now c pkt).fhost,
        count_if_le (λ p. ltb pkt.seq p.seq && true) c.fhost,
        full,
      );
  tracked = handle_rack-All Tracked now c pkt tracked;
  change = inl (record {
    next = handle_rack-current_seq now c pkt;
    fewer = λ k.
        rw
          (
            held-fhost k c,
            held-fhost k (handle_rack now c pkt),
            handle_rack-fhost now c pkt (λ p. eqb p.seq k),
          )
          (count_if-both (λ p. ltb pkt.seq p.seq) (λ p. eqb p.seq k) c.fhost);
    stays = λ k u.
        rw
          (
            held-fhost k c,
            held-fhost k (handle_rack now c pkt),
            handle_rack-fhost now c pkt (λ p. eqb p.seq k),
          )
          (count_if_cong _ _ (λ p. covered_test pkt.seq k p.seq u) c.fhost);
  });
}

pub tick-Step :
    (now : ℕ) (c : Conn)
    → length c.fhost ≤ send_window
    → All Tracked c.fhost
    → (timeouts now c).1.closed ≡ false
    → Step c (tick now) (timeouts now c).1
tick-Step now c full tracked alive = elim (timeouts_lem now c tracked) [
  | inl (good, below, same, kept, exact, again, still) ↦ record {
    full = omega (arith, length_same _ _ same, full);
    tracked = kept;
    change = inl (record {
      next = timeouts-current_seq now c;
      fewer = λ k. omega (arith, held_same k c (timeouts now c).1 same);
      stays = λ k u. held_same k c (timeouts now c).1 same;
    });
  }
  | inr (bad, culprit, fewer, shut) ↦ absurd (cc (shut, alive))
]
