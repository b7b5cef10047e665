-- ===== src/Rudp/Timeouts.antt =====
-- `_rudp_conn_timeouts` of connection.c: packets that wait too long for an acknowledgement are sent
-- again, and one that was sent again too often closes the connection.
use soter.Base.{
  ℕ, ◌+◌, ◌*◌, ◌/◌, ◌<◌, ◌≡◌, refl, sym, ap, ap₂, ◌∙◌, inl, inr, Bool, true, false, none, some,
  List, [], ◌∷◌, ◌++◌, arith, leb, length, if◌then◌else◌, Bool-cases, All, not-leb→lt, map, ◌⊎◌,
}
use soter.Proto.{Pack}
use soter.Rudp.{Conn, Pending, retransmission_cap}
use soter.Rudp.Holes.{fill, count_if, length-fill}

-- `dt_ms >= backoff_ms`, where the factor `1.5 + retransmit_count` is a `double` that represents
-- these values exactly, and the product loses its half.
pub due : ℕ → ℕ → Pending → Bool
due now avg p = leb (p.timestamp + avg * (3 + 2 * p.retransmit_count) / 2) now

-- What the loop leaves, what it sends, and whether it met a packet at the cap.
pub record Sweep : Type 0 where
  pub left : List Pending
  pub resent : List Pack
  pub capped : Bool

pub sent_again : ℕ → Pending → Pending
sent_again now p = record p { timestamp = now; retransmit_count = p.retransmit_count + 1 }

-- The loop from an index on, over what stands there.
pub sweep : ℕ → ℕ → List Pending → Sweep
unfolding due sent_again
sweep now avg [] = record { left = []; resent = []; capped = false }
sweep now avg (p ∷ ps) =
    let rest = sweep now avg ps in
    elim p.copy [
      | none ↦ rest
      | some pack ↦
          if leb retransmission_cap p.retransmit_count
          then record { left = fill ps; resent = []; capped = true }
          else if due now avg p
          then record rest { left = sent_again now p ∷ rest.left; resent = pack ∷ rest.resent }
          else record rest { left = p ∷ rest.left }
    ]

-- The status is true for 0 and false for -1.
unfoldable pub timeouts : ℕ → Conn → Bool × Conn
unfolding sweep
timeouts now c =
    let s = sweep now c.avg_rtt_ms c.fhost in
    let swept = record c { fhost = s.left; outbox = c.outbox ++ s.resent } in
    if s.capped then (false, record swept { closed = true }) else (true, swept)

-- A packet of this connection's making, whose copy is numbered as it is.
unfoldable pub Tracked : Pending → Type 0
Tracked p = (q : Pack) × (p.copy ≡ some q) × (q.seq ≡ p.seq)

abbrev pub capped_out : Pending → Bool
capped_out p = leb retransmission_cap p.retransmit_count

abbrev pub seqs : List Pending → List ℕ
seqs ps = map (λ p. p.seq) ps

-- What becomes of a packet that waits and of whose copies one is sent.  A packet has waited long when
-- one and a half times the round trip, and another round trip for each time it was sent again, have
-- gone by since it was sent.
abbrev pub waited_long : ℕ → ℕ → Pending → Bool
waited_long now avg p = leb (p.timestamp + avg * (3 + 2 * p.retransmit_count) / 2) now

abbrev pub renewed : ℕ → ℕ → Pending → Pending
renewed now avg p =
    if waited_long now avg p
    then record p { timestamp = now; retransmit_count = p.retransmit_count + 1 }
    else p

-- The copies of the packets that have waited long, in their order.
unfoldable pub long_waiting : ℕ → ℕ → List Pending → List Pack
long_waiting now avg [] = []
long_waiting now avg (p ∷ ps) =
    let rest = long_waiting now avg ps in
    if waited_long now avg p then elim p.copy [ none ↦ rest | some pack ↦ pack ∷ rest ] else rest

renewed_late :
    (now avg : ℕ) (p : Pending) → due now avg p ≡ true → renewed now avg p ≡ sent_again now p
unfolding due sent_again
renewed_late now avg p d = rw d refl

renewed_early : (now avg : ℕ) (p : Pending) → due now avg p ≡ false → renewed now avg p ≡ p
unfolding due
renewed_early now avg p d = rw d refl

long_waiting_late :
    (now avg : ℕ) (p : Pending) (ps : List Pending) (q : Pack)
    → due now avg p ≡ true
    → p.copy ≡ some q
    → long_waiting now avg (p ∷ ps) ≡ q ∷ long_waiting now avg ps
unfolding due long_waiting
long_waiting_late now avg p ps q d copied = rw (d, copied) refl

long_waiting_early :
    (now avg : ℕ) (p : Pending) (ps : List Pending)
    → due now avg p ≡ false
    → long_waiting now avg (p ∷ ps) ≡ long_waiting now avg ps
unfolding due long_waiting
long_waiting_early now avg p ps d = rw d refl

-- The sweep came to the end.
record Swept (now avg : ℕ) (ps : List Pending) (s : Sweep) : Type 0 where
  pub calm : s.capped ≡ false
  pub below : All (λ p. p.retransmit_count < retransmission_cap) ps
  pub kept : seqs s.left ≡ seqs ps
  pub tracked : All Tracked s.left
  pub exact : s.left ≡ map (renewed now avg) ps
  pub resent : s.resent ≡ long_waiting now avg ps

-- The sweep met a packet at the cap.
record Stopped (ps : List Pending) (s : Sweep) : Type 0 where
  pub cap : s.capped ≡ true
  pub fewer : length s.left < length ps
  pub culprit : 0 < count_if capped_out ps

sweep-cases :
    (now avg : ℕ) (ps : List Pending)
    → All Tracked ps
    → Swept now avg ps (sweep now avg ps) ⊎ Stopped ps (sweep now avg ps)
unfolding sweep sent_again Tracked count_if long_waiting
sweep-cases now avg [] h =
    inl (record { calm = refl; below = tt; kept = refl; tracked = tt; exact = refl; resent = refl })
sweep-cases now avg (p ∷ ps) ((q, copied, same), h) = elim (Bool-cases (capped_out p)) [
  | inl over ↦ inr (
      simp (sweep, copied, over)
        (record {
          cap = refl;
          fewer = omega (arith, length-fill ps);
          culprit = simp over (omega arith);
        }))
  | inr under ↦ elim (sweep-cases now avg ps h) [
    | inr s ↦ elim (Bool-cases (due now avg p)) [
      | inl d ↦ inr (
          simp (sweep, copied, under, d)
            (record {
              cap = s.cap;
              fewer = omega (arith, s.fewer);
              culprit = omega (arith, s.culprit);
            }))
      | inr d ↦ inr (
          simp (sweep, copied, under, d)
            (record {
              cap = s.cap;
              fewer = omega (arith, s.fewer);
              culprit = omega (arith, s.culprit);
            }))
    ]
    | inl s ↦ elim (Bool-cases (due now avg p)) [
      | inl d ↦ inl (
          simp (sweep, copied, under, d)
            (record {
              calm = s.calm;
              below = (omega (arith, not-leb→lt _ _ under), s.below);
              kept = ap (λ l. p.seq ∷ l) s.kept;
              tracked = ((q, refl, same), s.tracked);
              exact =
                  ap₂ (λ a l. a ∷ l) (λ i. record (sent_again now p) { copy = sym copied i })
                    s.exact
                  ∙ ap (λ a. a ∷ map (renewed now avg) ps) (sym (renewed_late now avg p d));
              resent = ap (λ l. q ∷ l) s.resent ∙ sym (long_waiting_late now avg p ps q d copied);
            }))
      | inr d ↦ inl (
          simp (sweep, copied, under, d)
            (record {
              calm = s.calm;
              below = (omega (arith, not-leb→lt _ _ under), s.below);
              kept = ap (λ l. p.seq ∷ l) s.kept;
              tracked = ((q, copied, same), s.tracked);
              exact =
                  ap (λ l. p ∷ l) s.exact
                  ∙ ap (λ a. a ∷ map (renewed now avg) ps) (sym (renewed_early now avg p d));
              resent = s.resent ∙ sym (long_waiting_early now avg p ps d);
            }))
    ]
  ]
]

-- A run of the timeouts over packets of this connection's own making.  Either no packet was at the
-- cap of ten: then the status is 0 and the same packets wait in the same order, the ones that have waited
-- long with the present time and one more retransmission, the others as they were; the copies of the
-- ones that have waited long, and nothing else, have been handed to the sender in this order; and the
-- connection is as open as it was.  Or a packet
-- was at the cap: then the status is -1, the connection is closed and fewer packets wait.
pub timeouts_lem :
    (now : ℕ) (c : Conn)
    → All Tracked c.fhost
    → let (good, c') = timeouts now c in
      ((good ≡ true)
        × All (λ p. p.retransmit_count < retransmission_cap) c.fhost
        × (seqs c'.fhost ≡ seqs c.fhost)
        × All Tracked c'.fhost
        × (c'.fhost ≡ map (renewed now c.avg_rtt_ms) c.fhost)
        × (c'.outbox ≡ c.outbox ++ long_waiting now c.avg_rtt_ms c.fhost)
        × (c'.closed ≡ c.closed))
      ⊎ ((good ≡ false)
          × (0 < count_if capped_out c.fhost)
          × (length c'.fhost < length c.fhost)
          × (c'.closed ≡ true))
unfolding timeouts
timeouts_lem now c h = elim (sweep-cases now c.avg_rtt_ms c.fhost h) [
  | inl s ↦ inl (
      simp s.calm
        (refl, s.below, s.kept, s.tracked, s.exact, ap (λ l. c.outbox ++ l) s.resent, refl))
  | inr s ↦ inr (simp s.cap (refl, s.culprit, s.fewer, refl))
]

pub timeouts-current_seq : (now : ℕ) (c : Conn) → (timeouts now c).1.current_seq ≡ c.current_seq
unfolding timeouts
timeouts-current_seq now c = elim (Bool-cases (sweep now c.avg_rtt_ms c.fhost).capped) [
  | inl e ↦ simp e refl
  | inr e ↦ simp e refl
]

pub timeouts-closed : (now : ℕ) (c : Conn) → c.closed ≡ true → (timeouts now c).1.closed ≡ true
unfolding timeouts
timeouts-closed now c h = elim (Bool-cases (sweep now c.avg_rtt_ms c.fhost).capped) [
  | inl e ↦ simp e refl
  | inr e ↦ simp e h
]
