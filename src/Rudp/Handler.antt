-- ===== src/Rudp/Handler.antt =====
-- The branch of `_rudp_dispatcher_net_handler` (dispatcher.c) for `PACK_DATA`: a data packet is
-- queued, reordered when it is the one that is due, and acknowledged now or later.
use soter.Base.{
  ℕ, ◌+◌, ◌-◌, ◌/◌, ◌≤◌, ◌≡◌, refl, ap, ◌∙◌, inl, inr, Bool, true, false, not, ◌&&◌, ◌||◌, none,
  some, [], ◌∷◌, ◌++◌, arith, leb, ltb, eqb, if◌then◌else◌, Bool-cases, Option-cases, ◌≢◌, ◌⊎◌,
  not-eqb→ne, eqb→eq, add32, u32_max,
}
use soter.Proto.{Pack, pack_rack, filled, type_code, msg_quick}
use soter.Proto.Quick.{msg_quick-granted}
use soter.Rudp.{Conn, pass_net}
use soter.Rudp.Reorder.{next_of, reordering}

pub clamp : ℕ → ℕ → ℕ → ℕ
clamp a b c = if ltb a b then b else if ltb c a then c else a

-- How many packets the next acknowledgement waits for.
pub next_threshold : ℕ → ℕ → ℕ → ℕ
unfolding clamp
next_threshold avg packets_count threshold =
    let adapted =
      if ltb avg 30
      then (if ltb threshold 16 then add32 threshold 2 else 16)
      else if ltb 100 avg
      then (if ltb 2 threshold then threshold - 1 else 2)
      else threshold in
    clamp (if eqb packets_count 0 && ltb 4 adapted then 4 else adapted) 2 16

abbrev pub answered : ℕ → Conn → Pack → Conn
answered now c msg = record c {
  outbox = c.outbox ++ (msg ∷ []);
  last_ack_sent_seq = c.last_recved_seq;
  packets_since_ack = 0;
  last_ack_timestamp = now;
  ack_threshold = next_threshold c.avg_rtt_ms c.packets_since_ack c.ack_threshold;
}

pub send_ack : Bool → ℕ → Conn → Conn
unfolding next_threshold
send_ack granted now c =
    if eqb c.last_recved_seq u32_max
    then c
    else elim (msg_quick granted c.s_uid c.c_uid c.last_recved_seq pack_rack) [
      | none ↦ record c { packets_since_ack = 0; last_ack_timestamp = now }
      | some msg ↦ answered now c msg
    ]

-- A difference of two times is written as a sum on the other side.
pub should_send_ack : Bool → ℕ → Conn → Bool
should_send_ack in_order now c =
    not in_order
    || leb c.ack_threshold c.packets_since_ack
    || leb (c.last_ack_timestamp + c.avg_rtt_ms / 2) now
    || leb (c.last_ack_timestamp + c.ack_timeout_ms) now
    || eqb c.last_ack_sent_seq u32_max

-- `_rudp_conn_pass_net`, and `_rudp_conn_reordering` for the packet that is due.
pub taken_in : Conn → Pack → Conn
taken_in c pkt =
    if eqb pkt.seq (next_of c.last_recved_seq) then reordering (pass_net c pkt) else pass_net c pkt

pub counted : Conn → Conn
counted c = record c { packets_since_ack = add32 c.packets_since_ack 1 }

pub handle_data : Bool → ℕ → Conn → Pack → Conn
unfolding send_ack should_send_ack taken_in counted
handle_data granted now c pkt =
    let in_order = eqb pkt.seq (next_of c.last_recved_seq) in
    let queued = counted (taken_in c pkt) in
    if should_send_ack in_order now queued then send_ack granted now queued else queued

taken_in-c_uid : (c : Conn) (pkt : Pack) → (taken_in c pkt).c_uid ≡ c.c_uid
unfolding taken_in pass_net reordering
taken_in-c_uid c pkt = elim (Bool-cases (eqb pkt.seq (next_of c.last_recved_seq))) [
  | inl due ↦ rw (taken_in, due) refl
  | inr other ↦ rw (taken_in, other) refl
]

send_ack-c_uid : (granted : Bool) (now : ℕ) (c : Conn) → (send_ack granted now c).c_uid ≡ c.c_uid
unfolding send_ack
send_ack-c_uid granted now c = elim (Bool-cases (eqb c.last_recved_seq u32_max)) [
  | inl never ↦ rw (send_ack, never) refl
  | inr some_seq ↦
      elim (Option-cases (msg_quick granted c.s_uid c.c_uid c.last_recved_seq pack_rack)) [
        | inl refused ↦ rw (send_ack, some_seq, refused) refl
        | inr (msg, made) ↦ rw (send_ack, some_seq, made) refl
      ]
]

-- The peer of a connection stays the same.
pub handle_data-c_uid :
    (granted : Bool) (now : ℕ) (c : Conn) (pkt : Pack)
    → (handle_data granted now c pkt).c_uid ≡ c.c_uid
unfolding handle_data counted
handle_data-c_uid granted now c pkt =
    let queued : Conn = counted (taken_in c pkt) in
    let in_order : Bool = eqb pkt.seq (next_of c.last_recved_seq) in
    elim (Bool-cases (should_send_ack in_order now queued)) [
      | inl answer ↦
          rw (handle_data, answer) (send_ack-c_uid granted now queued ∙ taken_in-c_uid c pkt)
      | inr silent ↦ rw (handle_data, silent) (taken_in-c_uid c pkt)
    ]

abbrev pub Bounded : ℕ → Type 0
Bounded threshold = (2 ≤ threshold) × (threshold ≤ 16)

next_threshold_bounds : (avg count threshold : ℕ) → Bounded (next_threshold avg count threshold)
unfolding next_threshold
next_threshold_bounds avg count threshold = ground arith

-- The one acknowledgement that a call sends: a `PACK_RACK` for the peer, with the number of the
-- last packet that was passed on.
pub record IsAck (c c' : Conn) (p : Pack) : Type 0 where
  pub out : c'.outbox ≡ c.outbox ++ (p ∷ [])
  pub type : p.packtype ≡ type_code pack_rack
  pub number : p.seq ≡ c'.last_recved_seq
  pub real : c'.last_recved_seq ≢ u32_max
  pub to : p.h_to ≡ c.c_uid
  pub reset : c'.packets_since_ack ≡ 0

send_ack-cases :
    (now : ℕ) (c : Conn)
    → let c' = send_ack true now c in
      ((c' ≡ c) × (c.last_recved_seq ≡ u32_max))
      ⊎ ((p : Pack) × IsAck c c' p
          × ((c'.reordered ≡ c.reordered) × (c'.last_recved_seq ≡ c.last_recved_seq))
          × Bounded c'.ack_threshold)
unfolding send_ack
send_ack-cases now c = elim (Bool-cases (eqb c.last_recved_seq u32_max)) [
  | inl never ↦ inl (rw (send_ack, never) refl, eqb→eq _ _ never)
  | inr some_seq ↦
      let msg : Pack = filled c.last_recved_seq c.s_uid c.c_uid pack_rack 0 [] in
      let e : send_ack true now c ≡ answered now c msg =
        rw (send_ack, some_seq, msg_quick-granted c.s_uid c.c_uid c.last_recved_seq pack_rack)
          refl in
      let ack : IsAck c (answered now c msg) msg = record {
        out = refl;
        type = refl;
        number = refl;
        real = not-eqb→ne _ _ some_seq;
        to = refl;
        reset = refl;
      } in
      let bounds = next_threshold_bounds c.avg_rtt_ms c.packets_since_ack c.ack_threshold in
      inr (msg, rw e ack, (rw e refl, rw e refl), rw e bounds)
]

taken_in-outbox : (c : Conn) (pkt : Pack) → (taken_in c pkt).outbox ≡ c.outbox
unfolding taken_in reordering pass_net
taken_in-outbox c pkt = elim (Bool-cases (eqb pkt.seq (next_of c.last_recved_seq))) [
  | inl e ↦ simp (taken_in, e) refl
  | inr e ↦ simp (taken_in, e) refl
]

late : (order : Bool) (now : ℕ) (c : Conn) → should_send_ack order now c ≡ false → order ≡ true
unfolding should_send_ack
late true now c h = refl
late false now c h = absurd (cc h)

-- Whatever data packet arrives, the connection passes on what it passes on without
-- acknowledgements, and sends at most one packet, when memory is granted: a `PACK_RACK` for the
-- peer that carries the number of the last packet passed on, never the marker for none.  Then the
-- threshold for the next one is 2 to 16 packets.  A packet out of order is acknowledged at once,
-- once any packet was passed on.
pub handle_data_lem :
    (now : ℕ) (c : Conn) (pkt : Pack)
    → let c' = handle_data true now c pkt in
      let t = taken_in c pkt in
      (c'.reordered ≡ t.reordered)
      × (c'.last_recved_seq ≡ t.last_recved_seq)
      × (((c'.outbox ≡ c.outbox)
            × ((pkt.seq ≡ next_of c.last_recved_seq) ⊎ (t.last_recved_seq ≡ u32_max)))
          ⊎ ((p : Pack) × IsAck c c' p × Bounded c'.ack_threshold))
unfolding handle_data counted
handle_data_lem now c pkt =
    let order = eqb pkt.seq (next_of c.last_recved_seq) in
    let t = taken_in c pkt in
    elim (Bool-cases (should_send_ack order now (counted t))) [
      | inr wait ↦
          rw (handle_data, wait)
            (
              refl,
              refl,
              inl (taken_in-outbox c pkt, inl (eqb→eq _ _ (late _ now (counted t) wait))),
            )
      | inl ack ↦
          rw (handle_data, ack)
            (elim (send_ack-cases now (counted t)) [
              | inl (same, never) ↦ rw same (refl, refl, inl (taken_in-outbox c pkt, inr never))
              | inr (p, a, keeps, bounds) ↦ (
                keeps.0,
                keeps.1,
                inr (
                  p,
                  record {
                    out = a.out ∙ ap (λ o. o ++ (p ∷ [])) (taken_in-outbox c pkt);
                    type = a.type;
                    number = a.number;
                    real = a.real;
                    to = a.to ∙ taken_in-c_uid c pkt;
                    reset = a.reset;
                  },
                  bounds,
                ),
              )
            ])
    ]
