-- ===== src/Gossip/Choice.antt =====
-- system.c: the entries that `gossip_random_entries` chooses.
use native.Mathlib.Nat.{mod-lt}
use mathlib.Core.Path.{subst}
use soter.Base.{
  eqb_flip, pos→not-eqb, ℕ, zero, suc, ◌+◌, ◌-◌, ◌%◌, ◌≤◌, ◌<◌, ◌≡◌, refl, sym, ap, ◌∙◌, inl, inr,
  false, Option, none, some, List, [], ◌∷◌, arith, eqb, eqb_refl, if◌then◌else◌, length, get_elem?,
  get_elem?-lt, min, All, All-map, Bool-cases,
}
use soter.Gossip.{Entry, Gossip, swap, shuffled, copies, chosen, random_entries}
use soter.Gossip.Known.{known, Unlike, Apart, IsSound}

-- Every index below the length is below the length, and no two are the same.
record IsShuffle (len : ℕ) (indices : ℕ → ℕ) : Type 0 where
  inside : (k : ℕ) → k < len → indices k < len
  apart : (a b : ℕ) → a < len → b < len → indices a ≡ indices b → a ≡ b

-- The place whose index stands at `k` after a swap.
place : ℕ → ℕ → ℕ → ℕ
place i j k = if eqb k i then j else if eqb k j then i else k

swap-place : (i j : ℕ) (indices : ℕ → ℕ) (k : ℕ) → swap i j indices k ≡ indices (place i j k)
unfolding swap place
swap-place i j indices k = elim (Bool-cases (eqb k i)) [
  | inl e ↦ rw e refl
  | inr e ↦ elim (Bool-cases (eqb k j)) [ inl f ↦ rw (e, f) refl | inr f ↦ rw (e, f) refl ]
]

place-lt : (len i j k : ℕ) → i < len → j < len → k < len → place i j k < len
unfolding place
place-lt len i j k hi hj hk = ground arith

place-inj : (i j a b : ℕ) → place i j a ≡ place i j b → a ≡ b
unfolding place
place-inj i j a b h = ground arith

swap-IsShuffle :
    (len i j : ℕ) (indices : ℕ → ℕ)
    → i < len
    → j < len
    → IsShuffle len indices
    → IsShuffle len (swap i j indices)
swap-IsShuffle len i j indices hi hj s = record {
  inside =
      λ k h. rw (swap-place i j indices k) (s.inside (place i j k) (place-lt len i j k hi hj h));
  apart = λ a b ha hb e. place-inj i j a b (
      s.apart (place i j a) (place i j b) (place-lt len i j a hi hj ha)
        (place-lt len i j b hi hj hb)
        (sym (swap-place i j indices a) ∙ e ∙ swap-place i j indices b));
}

drawn-lt : (rand : ℕ → ℕ) (len i : ℕ) → i < len → i + rand i % (len - i) < len
drawn-lt rand len i h = omega (arith, h, mod-lt (rand i) {m = len - i} (omega (arith, h)))

shuffled-IsShuffle :
    (rand : ℕ → ℕ) (len rounds i : ℕ) (indices : ℕ → ℕ)
    → i + rounds ≤ len
    → IsShuffle len indices
    → IsShuffle len (shuffled rand len rounds i indices)
unfolding shuffled
shuffled-IsShuffle rand len zero i indices h s = s
shuffled-IsShuffle rand len (suc rounds) i indices h s =
    let inside : i < len = omega (arith, h) in
    shuffled-IsShuffle rand len rounds (suc i) (swap i (i + rand i % (len - i)) indices)
      (omega (arith, h)) (swap-IsShuffle len i _ indices inside (drawn-lt rand len i inside) s)

module _ {Addr Md : Type 0} where
  uid_at : Option (Entry Addr Md) → ℕ
  uid_at none = 0
  uid_at (some e) = e.uid

  Unlike-at :
      (u : ℕ) (es : List (Entry Addr Md)) (k : ℕ) (x : Entry Addr Md)
      → Unlike u es
      → get_elem? es k ≡ some x
      → eqb x.uid u ≡ false
  Unlike-at u [] k x h e = cc
  Unlike-at u (y ∷ es) zero x (h, hs) e = cc
  Unlike-at u (y ∷ es) (suc k) x (h, hs) e = Unlike-at u es k x hs e

  -- Entries at two places of the array are of two peers.
  uid-Apart :
      (es : List (Entry Addr Md)) (a b : ℕ) (x y : Entry Addr Md)
      → Apart es
      → get_elem? es a ≡ some x
      → get_elem? es b ≡ some y
      → ¬ (a ≡ b)
      → eqb y.uid x.uid ≡ false
  unfolding uid_at
  uid-Apart [] a b x y h ea eb ne = cc
  uid-Apart (e ∷ es) zero zero x y h ea eb ne = absurd (ne refl)
  uid-Apart (e ∷ es) zero (suc b) x y (h, hs) ea eb ne =
      subst (λ u. eqb y.uid u ≡ false) (ap uid_at ea) (Unlike-at e.uid es b y h eb)
  uid-Apart (e ∷ es) (suc a) zero x y (h, hs) ea eb ne =
      subst (λ u. eqb u x.uid ≡ false) (ap uid_at eb)
        (eqb_flip x.uid e.uid (Unlike-at e.uid es a x h ea))
  uid-Apart (e ∷ es) (suc a) (suc b) x y (h, hs) ea eb ne =
      uid-Apart es a b x y hs ea eb λ q. ne (ap suc q)

  known-at :
      (es : List (Entry Addr Md)) (k : ℕ) (x : Entry Addr Md)
      → Apart es
      → get_elem? es k ≡ some x
      → known es x.uid ≡ some x
  unfolding uid_at
  known-at [] k x h e = cc
  known-at (y ∷ es) zero x h e = rw (ap (λ u. eqb u x.uid) (ap uid_at e) ∙ eqb_refl x.uid) e
  known-at (y ∷ es) (suc k) x (h, hs) e =
      rw (eqb_flip x.uid y.uid (Unlike-at y.uid es k x h e)) (known-at es k x hs e)

  -- The entry stands at an index that comes from `i` on.
  abbrev From : List (Entry Addr Md) → (ℕ → ℕ) → ℕ → Entry Addr Md → Type 0
  From es indices i y = (b : ℕ) × (i ≤ b) × (b < length es) × (get_elem? es (indices b) ≡ some y)

  copies_lem :
      (es : List (Entry Addr Md)) (indices : ℕ → ℕ) (i n : ℕ)
      → Apart es
      → IsShuffle (length es) indices
      → i + n ≤ length es
      → (out : List (Entry Addr Md)) × (copies es indices i n ≡ some out)
        × (length out ≡ n)
        × Apart out
        × All (From es indices i) out
  unfolding copies
  copies_lem es indices i zero h s fits = ([], refl, refl, tt, tt)
  copies_lem es indices i (suc n) h s fits =
      let here : i < length es = omega (arith, fits) in
      let (x, at) = get_elem?-lt es (indices i) (s.inside i here) in
      let (out, made, len, apart, all) =
        copies_lem es indices (suc i) n h s (omega (arith, fits)) in
      (
        x ∷ out,
        rw (copies, at, made) refl,
        omega (arith, len),
        (
          All-map _ _
              (λ y f.
                uid-Apart es (indices i) (indices f.0) x y h at f.3
                  λ q. absurd (omega (arith, f.1, s.apart i f.0 here f.2 q)))
              out all,
          apart,
        ),
        (
          (i, omega arith, here, at),
          All-map _ _ (λ y f. (f.0, omega (arith, f.1), f.2, f.3)) out all,
        ),
      )

  -- From a sound system with entries, as many are chosen as are asked for, or all of them where there
  -- are fewer; each is one that the system has, and no two are of one peer, whatever `rand` gives.
  pub random_entries_lem :
      (rand : ℕ → ℕ) (g : Gossip Addr Md) (n : ℕ)
      → IsSound g
      → 0 < n
      → 0 < length g.gossips
      → (es : List (Entry Addr Md)) × (random_entries rand g n ≡ chosen es)
        × (length es ≡ min n (length g.gossips))
        × Apart es
        × All (λ e. known g.gossips e.uid ≡ some e) es
  unfolding random_entries
  random_entries_lem rand g n s wanted there =
      let len : ℕ = length g.gossips in
      let start : IsShuffle len (λ k. k) = record { inside = λ k h. h; apart = λ a b ha hb e. e } in
      let m : ℕ = min n len in
      let indices : ℕ → ℕ = shuffled rand len m 0 (λ k. k) in
      let (out, made, size, apart, all) =
        copies_lem g.gossips indices 0 m s.apart
          (shuffled-IsShuffle rand len m 0 (λ k. k) (omega arith) start) (omega arith) in
      (
        out,
        rw (random_entries, pos→not-eqb n wanted, pos→not-eqb len there, made) refl,
        size,
        apart,
        All-map _ _ (λ y f. known-at g.gossips (indices f.0) y s.apart f.3) out all,
      )
