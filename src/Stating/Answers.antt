-- ===== src/Stating/Answers.antt =====
-- handlers.c: what a STATE packet adds to the answers that wait.
use soter.Base.{
  ℕ, zero, suc, ◌+◌, ◌*◌, ◌/◌, length-append, eqb→eq, not-eqb→ne, ltb, ◌<◌, ◌≤◌, ◌≡◌, refl, sym, ap,
  ◌∙◌, true, false, List, [], ◌∷◌, ◌++◌, arith, eqb, length, take, drop, All-append, All-map,
  append-nil, append_assoc, Bool-cases, Option-cases, Bool, none, some, ◌⊎◌, inl, inr,
}
use mathlib.Core.Path.{subst}
use soter.Proto.{Pack}
use soter.Proto.Machine.{Host}
use soter.Crypto.Library.{Sodium}
use soter.Crypto.{pubkey_and_uid_check, sign_verify}
use soter.Stating.{
  StateRequest, Answer, StateSystem, request_size, request_of, sign_buff, to_host, rreceive,
  too_old, waits, new_ans, hear, hear_all, hnd_state,
}
use soter.Stating.Address.{converted}
use soter.Stating.Entries.{
  Holds, Accepted, Endless, Adds, Outcome, Accepted-wider, Endless-wider, later, first,
}
use soter.Stating.Machine.{Wide}

-- A clock whose seconds are not negative in 64 bits.
too_old-recent :
    (now timestamp : ℕ)
    → now < 9223372036854775808
    → too_old now timestamp ≡ false
    → now < timestamp + 30
unfolding too_old
too_old-recent now timestamp clock e = ground (arith, clock, e)

module _ (host : Host) (wide : Wide) (sodium : Sodium) where
  module _ (now self_uid : ℕ) (from : List ℕ) (clock : now < 9223372036854775808) where
    nothing :
        (n : ℕ) (bytes : List ℕ) (sys : StateSystem)
        → Adds host wide sodium now self_uid from n bytes sys sys
    nothing n bytes sys = record {
      new = [];
      at_end = sym (append-nil sys.new_state_ans);
      accepted = _;
      few = omega arith;
    }

    new_ans-Adds :
        (bytes : List ℕ) (sys : StateSystem) (req : StateRequest)
        → Accepted host wide sodium now self_uid from 1 bytes
            (record { req = req; come_from = from })
        → Adds host wide sodium now self_uid from 1 bytes sys
            (new_ans host wide sodium sys req from)
    unfolding new_ans
    new_ans-Adds bytes sys req accepted =
        let a : Answer = record { req = req; come_from = from } in
        elim (Bool-cases (waits host wide sodium a sys.new_state_ans)) [
          | inl there ↦
              rw (new_ans, there)
                (record {
                  new = [];
                  at_end = sym (append-nil sys.new_state_ans);
                  accepted = _;
                  few = omega arith;
                })
          | inr other ↦
              rw (new_ans, other)
                (record {
                  new = a ∷ [];
                  at_end = refl;
                  accepted = (accepted, _);
                  few = omega arith;
                })
        ]

    hear-Adds :
        (sys : StateSystem) (bytes : List ℕ)
        → Outcome host wide sodium now self_uid from 1 bytes sys
            (hear host wide sodium now self_uid from sys (take request_size bytes))
    unfolding hear rreceive
    hear-Adds sys bytes =
        let r : StateRequest = request_of host wide sodium (take request_size bytes) in
        let inside : Holds host wide sodium 1 bytes r = (0, omega arith, refl) in
        let none_new = nothing 1 bytes sys in
        elim (Bool-cases (sign_verify sodium (sign_buff host wide sodium r) r.signature r.pubkey)) [
          | inr v ↦ inr (sys, rw (hear, rreceive, v) refl, none_new)
          | inl v ↦ elim (Option-cases (converted host wide.ntohs r.addr)) [
            | inl c ↦ inl (
              rw (hear, rreceive, v, c) refl,
              record { sent_as = r; inside = inside; verified = v; over = c },
            )
            | inr (addr, c) ↦
                let q : StateRequest = to_host host wide sodium addr r in
                elim (Bool-cases (pubkey_and_uid_check sodium host r.pubkey (host.ntohl r.uid))) [
                  | inr m ↦ inr (sys, rw (hear, rreceive, v, c, m) refl, none_new)
                  | inl m ↦ elim (Bool-cases (eqb q.uid self_uid)) [
                    | inl o ↦ inr (sys, rw (hear, rreceive, v, c, m, o) refl, none_new)
                    | inr o ↦ elim (Bool-cases (too_old now q.timestamp)) [
                      | inl f ↦ inr (sys, rw (hear, rreceive, v, c, m, o, f) refl, none_new)
                      | inr f ↦ inr (
                        new_ans host wide sodium sys q from,
                        rw (hear, rreceive, v, c, m, o, f) refl,
                        new_ans-Adds bytes sys q (record {
                          sent_as = r;
                          inside = inside;
                          addr = addr;
                          in_order = c;
                          same = refl;
                          verified = v;
                          matches = m;
                          other = not-eqb→ne q.uid self_uid o;
                          fresh = too_old-recent now q.timestamp clock f;
                          origin = refl;
                        }),
                      )
                    ]
                  ]
                ]
          ]
        ]

    hear_all-Adds :
        (n : ℕ) (sys : StateSystem) (bytes : List ℕ)
        → Outcome host wide sodium now self_uid from n bytes sys
            (hear_all host wide sodium now self_uid from sys n bytes)
    unfolding hear_all
    hear_all-Adds zero sys bytes = inr (sys, refl, nothing 0 bytes sys)
    hear_all-Adds (suc n) sys bytes =
        let behind : List ℕ = drop request_size bytes in
        elim (hear-Adds sys bytes) [
          | inl (e, endless) ↦ inl (
            rw (hear_all, e) refl,
            Endless-wider host wide sodium 1 (suc n) bytes bytes (first host wide sodium n bytes)
                endless,
          )
          | inr (sys', e, a) ↦ elim (hear_all-Adds n sys' behind) [
            | inl (over, endless) ↦ inl (
              rw (hear_all, e) over,
              Endless-wider host wide sodium n (suc n) behind bytes (later host wide sodium n bytes)
                  endless,
            )
            | inr (sys'', over, b) ↦ inr (
              sys'',
              rw (hear_all, e) over,
              record {
                new = a.new ++ b.new;
                at_end =
                    b.at_end
                    ∙ ap (λ xs. xs ++ b.new) a.at_end
                    ∙ append_assoc sys.new_state_ans a.new b.new;
                accepted =
                    All-append (Accepted host wide sodium now self_uid from (suc n) bytes) a.new
                      b.new
                      (All-map _ _
                        (Accepted-wider host wide sodium now self_uid from 1 (suc n) bytes bytes
                          (first host wide sodium n bytes))
                        a.new a.accepted)
                      (All-map _ _
                        (Accepted-wider host wide sodium now self_uid from n (suc n) behind bytes
                          (later host wide sodium n bytes))
                        b.new b.accepted);
                few = omega (arith, length-append a.new b.new, a.few, b.few);
              },
            )
          ]
        ]

    -- What a STATE packet that holds the data it announces does, by a clock that is not negative.  Either one of its requests is signed by
    -- the holder of its key and has an address whose text has no end, and the copy of that text runs
    -- over.  Or the handler comes to its end: the answers that wait stay, and what is put behind them
    -- are requests of the packet, in host order, that the holders of their keys have signed, for the
    -- UIDs of these keys, that are not the node's own and not 30 seconds old, and at most as many as
    -- the packet has room for.
    pub hnd_state-Adds :
        (sys : StateSystem) (pck : Pack)
        → pck.d_size ≤ length pck.data_bytes
        → let n = pck.d_size / request_size in
          let bytes = drop 4 pck.data_bytes in
          ((hnd_state host wide sodium now self_uid from sys pck ≡ none)
            × Endless host wide sodium n bytes)
          ⊎ ((good : Bool) × (sys' : StateSystem) × (hnd_state host wide sodium now self_uid from
                  sys pck
                ≡ some (good, sys'))
              × Adds host wide sodium now self_uid from n bytes sys sys')
    unfolding hnd_state
    hnd_state-Adds sys pck whole =
        let n : ℕ = host.ntohl (host.word_of (take 4 pck.data_bytes)) in
        let bytes : List ℕ = drop 4 pck.data_bytes in
        let none_new = nothing (pck.d_size / request_size) bytes sys in
        elim (Bool-cases (ltb pck.d_size 4)) [
          | inl short ↦ inr (false, sys, rw (hnd_state, short) refl, none_new)
          | inr long ↦
              let there : ltb (length pck.data_bytes) 4 ≡ false = ground (arith, long, whole) in
              let all : ltb (length pck.data_bytes) pck.d_size ≡ false = ground (arith, whole) in
              elim (Bool-cases (eqb pck.d_size (4 + n * request_size))) [
                | inr wrong ↦ inr (false, sys, rw (hnd_state, long, there, wrong) refl, none_new)
                | inl right ↦
                    let count : n ≡ pck.d_size / request_size =
                      omega (arith, eqb→eq pck.d_size (4 + n * request_size) right) in
                    let heard =
                      subst
                        (λ m.
                          Outcome host wide sodium now self_uid from m bytes sys
                            (hear_all host wide sodium now self_uid from sys n bytes))
                        count (hear_all-Adds n sys bytes) in
                    elim heard [
                      | inl (e, endless) ↦
                          inl (rw (hnd_state, long, there, right, all, e) refl, endless)
                      | inr (sys', e, a) ↦
                          inr (true, sys', rw (hnd_state, long, there, right, all, e) refl, a)
                    ]
              ]
        ]
