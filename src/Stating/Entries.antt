-- ===== src/Stating/Entries.antt =====
-- handlers.c: what becomes of the requests that a STATE packet holds.
use soter.Base.{
  ℕ, zero, suc, ◌+◌, ◌*◌, ◌≢◌, ◌<◌, ◌≤◌, ◌≡◌, refl, sym, ap, ◌∙◌, true, List, [], ◌∷◌, ◌++◌, arith,
  length, take, drop, All, Option, none, some, ◌⊎◌,
}
use soter.Proto.Machine.{Host}
use soter.Crypto.Library.{Sodium}
use soter.Crypto.{pubkey_and_uid_check, sign_verify}
use soter.Stating.{StateRequest, Answer, StateSystem, request_size, request_of, sign_buff, to_host}
use soter.Stating.Address.{converted}
use soter.Stating.Machine.{Wide}

drop_nil : (n : ℕ) → drop {A = ℕ} n [] ≡ []
drop_nil zero = refl
drop_nil (suc n) = refl

drop_twice : (m n : ℕ) (xs : List ℕ) → drop n (drop m xs) ≡ drop (m + n) xs
drop_twice zero n xs = ap (λ k. drop k xs) (omega arith)
drop_twice (suc m) n [] = drop_nil n ∙ sym (drop_nil (suc m + n))
drop_twice (suc m) n (x ∷ xs) =
    let one_more : suc m + n ≡ suc (m + n) = omega arith in
    drop_twice m n xs ∙ sym (ap (λ k. drop k (x ∷ xs)) one_more)

module _ (host : Host) (wide : Wide) (sodium : Sodium) where
  -- One of the `n` requests that these bytes hold.
  abbrev pub Holds : ℕ → List ℕ → StateRequest → Type 0
  Holds n bytes r =
      (k : ℕ) × (k < n)
      × (r ≡ request_of host wide sodium (take request_size (drop (k * request_size) bytes)))

  Holds-later :
      (n : ℕ) (bytes : List ℕ) (r : StateRequest)
      → Holds n (drop request_size bytes) r
      → Holds (suc n) bytes r
  Holds-later n bytes r (k, small, e) =
      let further : drop (k * request_size) (drop request_size bytes)
          ≡ drop (suc k * request_size) bytes =
        drop_twice request_size (k * request_size) bytes ∙ ap (λ m. drop m bytes) (omega arith) in
      (
        suc k,
        omega (arith, small),
        e ∙ ap (λ b. request_of host wide sodium (take request_size b)) further,
      )

  -- This is one of the requests in the bytes, the holder of its key has signed it for the UID of that
  -- key, lately, and it is not the node itself.
  pub record Accepted (now self_uid : ℕ) (from : List ℕ) (n : ℕ) (bytes : List ℕ) (a : Answer)
      : Type 0 where
    pub sent_as : StateRequest
    pub inside : Holds n bytes sent_as
    pub addr : List ℕ
    pub in_order : converted host wide.ntohs sent_as.addr ≡ some addr
    pub same : a.req ≡ to_host host wide sodium addr sent_as
    pub verified :
        sign_verify sodium (sign_buff host wide sodium sent_as) sent_as.signature sent_as.pubkey
        ≡ true
    pub matches : pubkey_and_uid_check sodium host sent_as.pubkey (host.ntohl sent_as.uid) ≡ true
    pub other : a.req.uid ≢ self_uid
    pub fresh : now < a.req.timestamp + 30
    pub origin : a.come_from ≡ from

  -- One of the requests in the bytes, which the holder of its key has signed, and the text of whose
  -- address has no end.
  pub record Endless (n : ℕ) (bytes : List ℕ) : Type 0 where
    pub sent_as : StateRequest
    pub inside : Holds n bytes sent_as
    pub verified :
        sign_verify sodium (sign_buff host wide sodium sent_as) sent_as.signature sent_as.pubkey
        ≡ true
    pub over : converted host wide.ntohs sent_as.addr ≡ none

  -- The answers that are new.
  pub record Adds (now self_uid : ℕ) (from : List ℕ) (n : ℕ) (bytes : List ℕ)
      (sys sys' : StateSystem) : Type 0 where
    pub new : List Answer
    pub at_end : sys'.new_state_ans ≡ sys.new_state_ans ++ new
    pub accepted : All (Accepted now self_uid from n bytes) new
    pub few : length new ≤ n

  -- What `n` requests in these bytes do.
  abbrev pub Outcome : ℕ → ℕ → List ℕ → ℕ → List ℕ → StateSystem → Option StateSystem → Type 0
  Outcome now self_uid from n bytes sys end =
      ((end ≡ none) × Endless n bytes)
      ⊎ ((sys' : StateSystem) × (end ≡ some sys') × Adds now self_uid from n bytes sys sys')

  -- What is one of some requests is one of others.
  unfoldable pub Wider : ℕ → List ℕ → ℕ → List ℕ → Type 0
  Wider n bytes n' bytes' = (r : StateRequest) → Holds n bytes r → Holds n' bytes' r

  pub Accepted-wider :
      (now self_uid : ℕ) (from : List ℕ) (n n' : ℕ) (bytes bytes' : List ℕ)
      → Wider n bytes n' bytes'
      → (a : Answer) → Accepted now self_uid from n bytes a
      → Accepted now self_uid from n' bytes' a
  unfolding Wider
  Accepted-wider now self_uid from n n' bytes bytes' wider a h = record {
    sent_as = h.sent_as;
    inside = wider h.sent_as h.inside;
    addr = h.addr;
    in_order = h.in_order;
    same = h.same;
    verified = h.verified;
    matches = h.matches;
    other = h.other;
    fresh = h.fresh;
    origin = h.origin;
  }

  pub Endless-wider :
      (n n' : ℕ) (bytes bytes' : List ℕ)
      → Wider n bytes n' bytes'
      → Endless n bytes
      → Endless n' bytes'
  unfolding Wider
  Endless-wider n n' bytes bytes' wider h = record {
    sent_as = h.sent_as;
    inside = wider h.sent_as h.inside;
    verified = h.verified;
    over = h.over;
  }

  pub later : (n : ℕ) (bytes : List ℕ) → Wider n (drop request_size bytes) (suc n) bytes
  unfolding Wider
  later n bytes = Holds-later n bytes

  pub first : (n : ℕ) (bytes : List ℕ) → Wider 1 bytes (suc n) bytes
  unfolding Wider
  first n bytes r (k, small, e) = (k, omega (arith, small), e)
