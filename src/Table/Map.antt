-- ===== src/Table/Map.antt =====
-- dyn_table.c: a table whose keys are distinct is a finite map, and its operations are the map's.
use soter.Base.{
  Bool, true, false, ℕ, suc, ◌+◌, ◌≤◌, ◌≡◌, refl, ap, ◌∙◌, ◌⊎◌, inl, inr, not, ◌&&◌, ◌||◌, Option,
  none, some, List, [], ◌∷◌, ◌++◌, arith, get_elem?, remove_at, MemEq, ◌==◌, Bool-cases,
  if◌then◌else◌,
}
use native.Mathlib.Nat.{le_trans}
use soter.Table.{
  Table, Grants, Status, ok, fail, set_second, find_idx_from, find_idx, set, remove, get, modify,
}

none_refused : (a b : Bool) → ((a && false) || (b && false)) ≡ false
none_refused true true = refl
none_refused true false = refl
none_refused false true = refl
none_refused false false = refl

module _ {ℓ} {K V : Type ℓ} ⦃e : MemEq K⦄ where
  -- The value of the first pair with the key.
  unfoldable pub lookup : List (K × V) → K → Option V
  lookup [] k = none
  lookup (p ∷ ps) k = if p.0 == k then some p.1 else lookup ps k

  -- How many pairs have the key.
  unfoldable pub keys : List (K × V) → K → ℕ
  keys [] k = 0
  keys (p ∷ ps) k = (if p.0 == k then 1 else 0) + keys ps k

  -- No two pairs have one key.
  abbrev pub IsMap : List (K × V) → Type ℓ
  IsMap ps = (k : K) → keys ps k ≤ 1

  -- The pair of the key, with another value, and without it.
  assign : K → V → List (K × V) → List (K × V)
  assign k v [] = []
  assign k v (p ∷ ps) = if p.0 == k then (p.0, v) ∷ ps else p ∷ assign k v ps

  erase : K → List (K × V) → List (K × V)
  erase k [] = []
  erase k (p ∷ ps) = if p.0 == k then ps else p ∷ erase k ps

  -- What the search finds: no pair with the key, or the place of the first one.
  record Found (ps : List (K × V)) (k : K) (n : ℕ) (v : V) : Type ℓ where
    there : get_elem? ps n ≡ some (k, v)
    value : lookup ps k ≡ some v
    second : (w : V) → set_second ps n w ≡ assign k w ps
    without : remove_at n ps ≡ erase k ps

  record Missing (ps : List (K × V)) (k : K) : Type ℓ where
    value : lookup ps k ≡ none
    count : keys ps k ≡ 0

  find_idx_from-cases :
      (ps : List (K × V)) (k : K) (i : ℕ)
      → ((find_idx_from i ps k ≡ none) × Missing ps k)
        ⊎ ((n : ℕ) × (v : V) × (find_idx_from i ps k ≡ some (i + n)) × Found ps k n v)
  unfolding find_idx_from lookup keys assign erase
  find_idx_from-cases [] k i = inl (refl, record { value = refl; count = refl })
  find_idx_from-cases (p ∷ ps) k i = elim (Bool-cases (p.0 == k)) [
    | inl same ↦
        let at_k : p.0 ≡ k = (e.same_bytes_iff p.0 k).0 same in
        inr (
          0,
          p.1,
          rw same (ap some (omega arith)),
          record {
            there = ap (λ t. some (t, p.1)) at_k;
            value = rw same;
            second = λ w. rw same;
            without = rw same;
          },
        )
    | inr other ↦ elim (find_idx_from-cases ps k (i + 1)) [
      | inl (nowhere, m) ↦ inl (
        rw other nowhere,
        record { value = rw other m.value; count = rw other (omega (arith, m.count)) },
      )
      | inr (n, v, found, f) ↦ inr (
        suc n,
        v,
        rw other (found ∙ ap some (omega arith)),
        record {
          there = f.there;
          value = rw other f.value;
          second = λ w. rw other (ap (λ t. p ∷ t) (f.second w));
          without = rw other (ap (λ t. p ∷ t) f.without);
        },
      )
    ]
  ]

  find_idx-cases :
      (t : Table K V) (k : K)
      → ((find_idx t k ≡ none) × Missing t.pairs k)
        ⊎ ((n : ℕ) × (v : V) × (find_idx t k ≡ some n) × Found t.pairs k n v)
  unfolding find_idx
  find_idx-cases t k = elim (find_idx_from-cases t.pairs k 0) [
    | inl missing ↦ inl missing
    | inr (n, v, found, f) ↦ inr (n, v, found ∙ ap some (omega arith), f)
  ]

  -- `dyn_table_get` reads the map.
  pub get-lookup : (t : Table K V) (k : K) → get t k ≡ lookup t.pairs k
  unfolding get
  get-lookup t k = elim (find_idx-cases t k) [
    | inl (nowhere, m) ↦ rw (get, nowhere, m.value)
    | inr (n, v, found, f) ↦ rw (get, found, f.there, f.value)
  ]

  lookup-assign :
      (k q : K) (v old : V) (ps : List (K × V))
      → lookup ps k ≡ some old
      → lookup (assign k v ps) q ≡ (if k == q then some v else lookup ps q)
  unfolding lookup assign
  lookup-assign k q v old [] h = cc
  lookup-assign k q v old (p ∷ ps) h = ground (
    arith,
    lookup-assign k q v old ps,
    e.same_bytes_iff p.0 k,
    e.same_bytes_iff p.0 q,
    e.same_bytes_iff k q,
  )

  keys-assign : (k q : K) (v : V) (ps : List (K × V)) → keys (assign k v ps) q ≡ keys ps q
  unfolding keys assign
  keys-assign k q v [] = refl
  keys-assign k q v (p ∷ ps) = ground (arith, keys-assign k q v ps)

  lookup-none : (k : K) (ps : List (K × V)) → keys ps k ≡ 0 → lookup ps k ≡ none
  unfolding lookup keys
  lookup-none k [] h = refl
  lookup-none k (p ∷ ps) h = ground (arith, lookup-none k ps)

  keys-erase-le : (k q : K) (ps : List (K × V)) → keys (erase k ps) q ≤ keys ps q
  unfolding keys erase
  keys-erase-le k q [] = omega arith
  keys-erase-le k q (p ∷ ps) = ground (arith, keys-erase-le k q ps)

  lookup-erase :
      (k q : K) (ps : List (K × V))
      → keys ps q ≤ 1
      → lookup (erase k ps) q ≡ (if k == q then none else lookup ps q)
  unfolding lookup keys erase
  lookup-erase k q [] h = ground arith
  lookup-erase k q (p ∷ ps) h = ground (
    arith,
    lookup-erase k q ps,
    lookup-none q ps,
    e.same_bytes_iff p.0 k,
    e.same_bytes_iff p.0 q,
    e.same_bytes_iff k q,
  )

  lookup-missing :
      (k q : K) (ps : List (K × V))
      → lookup ps k ≡ none
      → lookup ps q ≡ (if k == q then none else lookup ps q)
  lookup-missing k q ps h = ground (arith, h, e.same_bytes_iff k q)

  lookup_snoc :
      (k q : K) (v : V) (ps : List (K × V))
      → lookup ps k ≡ none
      → lookup (ps ++ ((k, v) ∷ [])) q ≡ (if k == q then some v else lookup ps q)
  unfolding lookup
  lookup_snoc k q v [] h = refl
  lookup_snoc k q v (p ∷ ps) h = ground (
    arith,
    lookup_snoc k q v ps,
    e.same_bytes_iff p.0 k,
    e.same_bytes_iff p.0 q,
    e.same_bytes_iff k q,
  )

  keys_snoc :
      (k q : K) (v : V) (ps : List (K × V))
      → keys (ps ++ ((k, v) ∷ [])) q ≡ keys ps q + (if k == q then 1 else 0)
  unfolding keys
  keys_snoc k q v [] = omega arith
  keys_snoc k q v (p ∷ ps) = omega (arith, keys_snoc k q v ps)

  -- What `dyn_table_set` may return and leave, seen at the key `q`.
  abbrev pub Sets : Table K V → K → V → K → Status × Table K V → Type ℓ
  Sets t k v q r =
      IsMap r.1.pairs
      × (((r.0 ≡ ok) × (get r.1 q ≡ (if k == q then some v else get t q)))
          ⊎ ((r.0 ≡ fail) × (r.1 ≡ t) × (get t k ≡ none)))

  -- On a table with distinct keys `dyn_table_set` either succeeds and binds the key to the value,
  -- every other key read as before, or fails, which it can only at a missing key, and changes
  -- nothing.  The keys stay distinct.
  pub set_lem :
      (granted : Grants) (t : Table K V) (k : K) (v : V) (q : K)
      → IsMap t.pairs
      → Sets t k v q (set granted t k v)
  unfolding set
  set_lem granted t k v q distinct = elim (find_idx-cases t k) [
    | inr (n, old, found, f) ↦
        rw (set, found, f.second v)
          (
            (λ x. rw keys-assign (distinct x)),
            inl (refl, rw (get-lookup, get-lookup) (lookup-assign k q v old t.pairs f.value)),
          )
    | inl (nowhere, m) ↦
        let failing = (t.flags.key && not granted.key) || (t.flags.val && not granted.val) in
        elim (Bool-cases failing) [
          | inl refused ↦
              rw (set, nowhere, refused) (distinct, inr (refl, refl, rw get-lookup m.value))
          | inr owned ↦ elim (Bool-cases granted.array) [
            | inl room ↦ rw (set, nowhere, owned, room) (added m)
            | inr full ↦
                rw (set, nowhere, owned, full) (distinct, inr (refl, refl, rw get-lookup m.value))
          ]
        ]
  ]
    where
      added : Missing t.pairs k → Sets t k v q (ok, record t { pairs = t.pairs ++ ((k, v) ∷ []) })
      added m = (
        (λ x. ground (arith, keys_snoc k x v t.pairs, distinct x, m.count, e.same_bytes_iff k x)),
        inl (refl, rw (get-lookup, get-lookup) (lookup_snoc k q v t.pairs m.value)),
      )

  -- `dyn_table_remove` fails at a missing key and changes nothing; at any other it takes the key out
  -- and leaves every other key as it was.  The keys stay distinct.
  pub remove_lem :
      (t : Table K V) (k q : K)
      → IsMap t.pairs
      → let (s, t') = remove t k in
        IsMap t'.pairs
        × (get t' q ≡ (if k == q then none else get t q))
        × (((s ≡ ok) × ((v : V) × (get t k ≡ some v))) ⊎ ((s ≡ fail) × (t' ≡ t) × (get t k ≡ none)))
  unfolding remove
  remove_lem t k q distinct = elim (find_idx-cases t k) [
    | inr (n, old, found, f) ↦
        rw (remove, found, f.without)
          (
            (λ x. le_trans (keys-erase-le k x t.pairs) (distinct x)),
            rw (get-lookup, get-lookup) (lookup-erase k q t.pairs (distinct q)),
            inl (refl, (old, rw get-lookup f.value)),
          )
    | inl (nowhere, m) ↦
        rw (remove, nowhere)
          (
            distinct,
            (rw get-lookup (lookup-missing k q t.pairs m.value)),
            inr (refl, refl, rw get-lookup m.value),
          )
  ]

  -- A write through the pointer that `dyn_table_get` returns changes the value of that key alone; at
  -- a missing key there is no pointer.  The keys stay distinct.
  -- With memory for every allocation `dyn_table_set` succeeds.
  pub set-granted :
      (t : Table K V) (k : K) (v : V)
      → (set (record { key = true; val = true; array = true }) t k v).0 ≡ ok
  unfolding set
  set-granted t k v = elim (find_idx-cases t k) [
    | inr (n, old, found, f) ↦ rw (set, found) refl
    | inl (nowhere, m) ↦
        let kept : ((t.flags.key && false) || (t.flags.val && false)) ≡ false =
          none_refused t.flags.key t.flags.val in
        rw (set, nowhere, kept) refl
  ]

  pub modify_lem :
      (t : Table K V) (k q : K) (f : V → V)
      → IsMap t.pairs
      → ((modify t k f ≡ none) × (get t k ≡ none))
        ⊎ ((t' : Table K V) × (old : V) × (modify t k f ≡ some t')
            × (get t k ≡ some old)
            × IsMap t'.pairs
            × (get t' q ≡ (if k == q then some (f old) else get t q)))
  unfolding modify
  modify_lem t k q f distinct = elim (find_idx-cases t k) [
    | inl (nowhere, m) ↦ inl (rw (modify, nowhere), rw get-lookup m.value)
    | inr (n, old, found, there) ↦ inr (
      record t { pairs = assign k (f old) t.pairs },
      old,
      rw (modify, found, there.there, there.second (f old)),
      rw get-lookup there.value,
      (λ x. rw keys-assign (distinct x)),
      rw (get-lookup, get-lookup) (lookup-assign k q (f old) old t.pairs there.value),
    )
  ]
