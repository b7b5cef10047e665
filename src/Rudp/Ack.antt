-- ===== src/Rudp/Ack.antt =====
-- The branch of `_rudp_dispatcher_net_handler` (dispatcher.c) for `PACK_RACK`: a cumulative
-- acknowledgement, and the round-trip estimate that it feeds.
use soter.Base.{
  ℕ, zero, suc, ◌+◌, ◌-◌, ◌*◌, ◌/◌, ◌≤◌, ◌≡◌, refl, inl, inr, Bool, true, false, ◌&&◌, List, [],
  ◌∷◌, arith, leb, ltb, eqb, length, if◌then◌else◌, Bool-cases, All, leb→not-ltb, not-leb→ltb,
}
use soter.Proto.{Pack}
use soter.Rudp.{Conn, Pending}
use soter.Rudp.Holes.{fill, count_if, length-fill, count_if-fill, All-fill}

-- The sample that a pending packet gives: only one that was never sent again is measured.
abbrev sample_of : ℕ → ℕ → Pending → ℕ → ℕ
sample_of now ack p sample =
    if eqb p.seq ack && eqb p.retransmit_count 0 then now - p.timestamp else sample

-- The loop from an index on, over what stands there.  A round either takes an element out or steps
-- over one, so that as many rounds are left as elements.  The sample starts as -1, written 0 here:
-- a sample that is not above 0 is not used.
acked_from : ℕ → ℕ → ℕ → List Pending → ℕ → List Pending × ℕ
acked_from zero now ack ps sample = (ps, sample)
acked_from (suc rounds) now ack [] sample = ([], sample)
acked_from (suc rounds) now ack (p ∷ ps) sample = elim (leb p.seq ack) [
  | true ↦ acked_from rounds now ack (fill ps) (sample_of now ack p sample)
  | false ↦ let (left, sampled) = acked_from rounds now ack ps sample in (p ∷ left, sampled)
]

pub smoothed_rtt : ℕ → ℕ → ℕ
smoothed_rtt avg sample =
    if ltb 0 sample && ltb sample 10000
    then (let floor = if ltb sample 20 then 20 else sample in
        if ltb (avg * 3) floor && ltb 50 avg then (avg * 7 + floor) / 8 else (avg * 3 + floor) / 4)
    else avg

unfoldable pub handle_rack : ℕ → Conn → Pack → Conn
unfolding acked_from smoothed_rtt
handle_rack now c pkt =
    let (left, sample) = acked_from (length c.fhost) now pkt.seq c.fhost 0 in
    record c { fhost = left; avg_rtt_ms = smoothed_rtt c.avg_rtt_ms sample }

acked_from-count :
    (rounds now ack : ℕ) (ps : List Pending) (sample : ℕ) (f : Pending → Bool)
    → length ps ≤ rounds
    → count_if f (acked_from rounds now ack ps sample).0 ≡ count_if (λ p. ltb ack p.seq && f p) ps
unfolding acked_from count_if
acked_from-count zero now ack [] sample f h = refl
acked_from-count zero now ack (p ∷ ps) sample f h = absurd (omega arith)
acked_from-count (suc rounds) now ack [] sample f h = refl
acked_from-count (suc rounds) now ack (p ∷ ps) sample f h = elim (Bool-cases (leb p.seq ack)) [
  | inl done ↦
      simp (acked_from, done, leb→not-ltb p.seq ack done)
        (omega (
          arith,
          acked_from-count rounds now ack (fill ps) (sample_of now ack p sample) f
              (omega (arith, length-fill ps)),
          count_if-fill (λ q. ltb ack q.seq && f q) ps,
        ))
  | inr wait ↦
      simp
        (
          acked_from,
          wait,
          not-leb→ltb p.seq ack wait,
          acked_from-count rounds now ack ps sample f (omega arith),
        )
        refl
]

acked_from-All {κ} :
    (P : Pending → Type κ) (rounds now ack : ℕ) (ps : List Pending) (sample : ℕ)
    → All P ps
    → All P (acked_from rounds now ack ps sample).0
unfolding acked_from
acked_from-All P zero now ack ps sample h = h
acked_from-All P (suc rounds) now ack [] sample h = h
acked_from-All P (suc rounds) now ack (p ∷ ps) sample h = elim (Bool-cases (leb p.seq ack)) [
  | inl done ↦
      rw (acked_from, done) (acked_from-All P rounds now ack (fill ps) _ (All-fill P ps h.1))
  | inr wait ↦ rw (acked_from, wait) (h.0, acked_from-All P rounds now ack ps sample h.1)
]

pub handle_rack-All :
    (P : Pending → Type 0) (now : ℕ) (c : Conn) (pkt : Pack)
    → All P c.fhost
    → All P (handle_rack now c pkt).fhost
unfolding handle_rack
handle_rack-All P now c pkt h = acked_from-All P (length c.fhost) now pkt.seq c.fhost 0 h

pub handle_rack-current_seq :
    (now : ℕ) (c : Conn) (pkt : Pack) → (handle_rack now c pkt).current_seq ≡ c.current_seq
unfolding handle_rack
handle_rack-current_seq now c pkt = refl

pub handle_rack-closed :
    (now : ℕ) (c : Conn) (pkt : Pack) → (handle_rack now c pkt).closed ≡ c.closed
unfolding handle_rack
handle_rack-closed now c pkt = refl

pub handle_rack-c_uid : (now : ℕ) (c : Conn) (pkt : Pack) → (handle_rack now c pkt).c_uid ≡ c.c_uid
unfolding handle_rack
handle_rack-c_uid now c pkt = refl

-- An acknowledgement takes out of the pending packets exactly those numbered up to its own number:
-- counted by any test, what is left is what was numbered above it.
pub handle_rack-fhost :
    (now : ℕ) (c : Conn) (pkt : Pack) (f : Pending → Bool)
    → count_if f (handle_rack now c pkt).fhost ≡ count_if (λ p. ltb pkt.seq p.seq && f p) c.fhost
unfolding handle_rack
handle_rack-fhost now c pkt f =
    acked_from-count (length c.fhost) now pkt.seq c.fhost 0 f (omega arith)

-- The estimate of the round trip stays between 20 ms and 10 s.
pub handle_rack-rtt :
    (now : ℕ) (c : Conn) (pkt : Pack)
    → 20 ≤ c.avg_rtt_ms
    → c.avg_rtt_ms ≤ 10000
    → (20 ≤ (handle_rack now c pkt).avg_rtt_ms) × ((handle_rack now c pkt).avg_rtt_ms ≤ 10000)
unfolding handle_rack smoothed_rtt
handle_rack-rtt now c pkt low high = smoothed (acked_from (length c.fhost) now pkt.seq c.fhost 0).1
  where
    smoothed :
        (sample : ℕ)
        → (20 ≤ smoothed_rtt c.avg_rtt_ms sample) × (smoothed_rtt c.avg_rtt_ms sample ≤ 10000)
    smoothed sample = ground arith
