-- ===== src/Rudp/Reorder/InOrder.antt =====
-- connection.c: what the application receives is numbered 0, 1, 2, … without a gap or a repeat,
-- whatever the network delivers and however the calls interleave.
use soter.Base.{
  ℕ, ◌<◌, ◌≡◌, refl, sym, ap, ◌∙◌, inl, inr, List, [], ◌∷◌, ◌++◌, arith, eqb, length, Bool-cases,
  add32, u32_mod, append_assoc, eqb→eq, append-nil, length-append,
}
use soter.Proto.{Pack}
use soter.Rudp.{
  Conn, conn_new, pass_net, conn_recv, take_next, RecvStatus, got, nothing, unconnected,
}
use soter.Rudp.Reorder.{next_of, flush, drain, reordering}

-- The packets are numbered from `s` on, modulo 2^32.
abbrev pub Consecutive : ℕ → List Pack → Type 0
Consecutive s [] = Unit
Consecutive s (p ∷ ps) = (p.seq ≡ s) × Consecutive (add32 s 1) ps

-- The number due after `UINT32_MAX` is 0: the marker for "none yet" and the wrap agree.
next_of-add32 : (last : ℕ) → last < u32_mod → next_of last ≡ add32 last 1
unfolding next_of
next_of-add32 last h = ground arith

next_of-lt : (last : ℕ) → last < u32_mod → next_of last < u32_mod
unfolding next_of
next_of-lt last h = ground arith

Consecutive-append :
    (s t : ℕ) (xs ys : List Pack)
    → Consecutive s xs
    → t ≡ add32 s (length xs)
    → s < u32_mod
    → Consecutive t ys
    → Consecutive s (xs ++ ys)
Consecutive-append s t [] ys cx e small cy =
    let same : t ≡ s = omega (arith, e, small) in rw (← same) cy
Consecutive-append s t (x ∷ xs) ys cx e small cy =
    (cx.0, Consecutive-append (add32 s 1) t xs ys cx.1 (omega (arith, e)) (omega arith) cy)

-- The second loop passes on a run of packets that starts at the number due and ends at its `last`.
pub flush-Consecutive :
    (last : ℕ) (buf : List Pack)
    → last < u32_mod
    → let f = flush last buf in
      Consecutive (next_of last) f.passed
      × (next_of f.last ≡ add32 (next_of last) (length f.passed))
      × (f.last < u32_mod)
unfolding flush
flush-Consecutive last [] h = (tt, omega (arith, next_of-lt last h), h)
flush-Consecutive last (p ∷ ps) h = elim (Bool-cases (eqb p.seq (next_of last))) [
  | inr gap ↦ rw gap (tt, omega (arith, next_of-lt last h), h)
  | inl due ↦
      let same : p.seq ≡ next_of last = eqb→eq _ _ due in
      let small : p.seq < u32_mod = omega (arith, same, next_of-lt last h) in
      let (run, end, bound) = flush-Consecutive p.seq ps small in
      let after : next_of p.seq ≡ add32 (next_of last) 1 =
        next_of-add32 p.seq small ∙ ap (λ n. add32 n 1) same in
      rw due ((same, rw (← after) run), omega (arith, end, after), bound)
]

-- What can happen to the receiving side: a packet comes from the network, the dispatcher reorders,
-- the application takes a packet.
pub data Event : Type 0 where
  arrive : Pack → Event
  process : Event
  receive : Event

-- The packets that the application got.
abbrev pub gotten : RecvStatus → List Pack
gotten (got p) = p ∷ []
gotten nothing = []
gotten unconnected = []

unfoldable pub event : Event → Conn → List Pack × Conn
event (arrive p) c = ([], pass_net c p)
event process c = ([], reordering c)
event receive c = let (r, c') = conn_recv c in (gotten r, c')

unfoldable pub run : List Event → Conn → List Pack × Conn
unfolding event
run [] c = ([], c)
run (e ∷ es) c = let (out, c') = event e c in let (rest, end) = run es c' in (out ++ rest, end)

-- From `c` the packets `out` were taken and `c'` is left: together with what waits in `c'` they are
-- what waited in `c` and then a run of packets from the number due in `c`.
record Progress (c : Conn) (out : List Pack) (c' : Conn) : Type 0 where
  fresh : List Pack
  kept : out ++ c'.reordered ≡ c.reordered ++ fresh
  run_on : Consecutive (next_of c.last_recved_seq) fresh
  due : next_of c'.last_recved_seq ≡ add32 (next_of c.last_recved_seq) (length fresh)
  small : c'.last_recved_seq < u32_mod

still :
    (c c' : Conn) (out : List Pack)
    → c.last_recved_seq < u32_mod
    → c'.last_recved_seq ≡ c.last_recved_seq
    → out ++ c'.reordered ≡ c.reordered
    → Progress c out c'
still c c' out h same kept = record {
  fresh = [];
  kept = kept ∙ sym (append-nil c.reordered);
  run_on = tt;
  due = rw same (omega (arith, next_of-lt c.last_recved_seq h));
  small = rw same h;
}

take_next-Progress :
    (c : Conn) (ps : List Pack)
    → c.last_recved_seq < u32_mod
    → c.reordered ≡ ps
    → Progress c (gotten (take_next c ps).0) (take_next c ps).1
unfolding take_next
take_next-Progress c [] h e = still c c [] h refl refl
take_next-Progress c (p ∷ ps) h e = still c _ (p ∷ []) h refl (sym e)

event-Progress :
    (e : Event) (c : Conn) → c.last_recved_seq < u32_mod → Progress c (event e c).0 (event e c).1
unfolding event pass_net conn_recv reordering
event-Progress (arrive p) c h = still c _ [] h refl refl
event-Progress process c h =
    let buf = drain c.last_recved_seq c.reorder_buf c.net in
    let (in_order, due, small) = flush-Consecutive c.last_recved_seq buf h in
    record {
      fresh = (flush c.last_recved_seq buf).passed;
      kept = refl;
      run_on = in_order;
      due = due;
      small = small;
    }
event-Progress receive c h = elim (Bool-cases c.closed) [
  | inl shut ↦ simp shut (still c c [] h refl refl)
  | inr open_conn ↦ simp open_conn (take_next-Progress c c.reordered h refl)
]

run-Progress :
    (es : List Event) (c : Conn)
    → c.last_recved_seq < u32_mod
    → Progress c (run es c).0 (run es c).1
unfolding run
run-Progress [] c h = still c c [] h refl refl
run-Progress (e ∷ es) c h =
    let first = event-Progress e c h in
    let rest = run-Progress es (event e c).1 first.small in
    record {
      fresh = first.fresh ++ rest.fresh;
      kept =
          append_assoc (event e c).0 (run es (event e c).1).0 _
          ∙ ap (λ t. (event e c).0 ++ t) rest.kept
          ∙ sym (append_assoc (event e c).0 (event e c).1.reordered rest.fresh)
          ∙ ap (λ t. t ++ rest.fresh) first.kept
          ∙ append_assoc c.reordered first.fresh rest.fresh;
      run_on =
          Consecutive-append (next_of c.last_recved_seq) (next_of (event e c).1.last_recved_seq)
            first.fresh rest.fresh first.run_on first.due (next_of-lt c.last_recved_seq h)
            rest.run_on;
      due = rw length-append (omega (arith, first.due, rest.due));
      small = rest.small;
    }

-- On a new connection, whatever packets arrive and however arrivals, reorderings and receive calls
-- interleave, the packets that the application got, followed by those that wait for it, are
-- numbered 0, 1, 2, … modulo 2^32: none is missing, repeated or out of order.
pub run-Consecutive :
    (self_uid conn_uid now : ℕ) (es : List Event)
    → let (got_packets, end) = run es (conn_new self_uid conn_uid now) in
      Consecutive 0 (got_packets ++ end.reordered)
unfolding conn_new next_of
run-Consecutive self_uid conn_uid now es =
    let p = run-Progress es (conn_new self_uid conn_uid now) (omega arith) in rw p.kept p.run_on
