-- ===== src/DynArray/Distinct.antt =====
-- dyn_array.c: `dyn_array_setself` turns an array into the set of its elements.
use soter.Base.{
  ℕ, zero, suc, ◌+◌, ◌≤◌, ◌<◌, min, ◌≡◌, refl, ◌∙◌, sym, inl, inr, true, false, some, List, [], ◌∷◌,
  arith, ltb, leb, length, get_elem?, remove_at, MemEq, ◌==◌, ==-refl, Bool-cases, if◌then◌else◌,
  get_elem?-lt, leb→le, not-leb→lt, ltb→lt, not-ltb→le, length-remove_at,
}
use soter.DynArray.{DynArray, len, count, count_of, setself_from, setself}

module _ {ℓ} {A : Type ℓ} ⦃e : MemEq A⦄ where
  pub count_of-remove_at :
      (xs : List A) (i : ℕ) (x y : A)
      → get_elem? xs i ≡ some y
      → count_of (remove_at i xs) x + (if x == y then 1 else 0) ≡ count_of xs x
  unfolding count_of
  count_of-remove_at [] i x y h = cc
  count_of-remove_at (z ∷ zs) zero x y h = ground arith
  count_of-remove_at (z ∷ zs) (suc i) x y h = omega (arith, count_of-remove_at zs i x y h)

  get_elem?-remove_at :
      (xs : List A) (i j : ℕ) → j < i → get_elem? (remove_at i xs) j ≡ get_elem? xs j
  get_elem?-remove_at [] i j h = refl
  get_elem?-remove_at (z ∷ zs) zero j h = elim h [ ]
  get_elem?-remove_at (z ∷ zs) (suc i) zero h = refl
  get_elem?-remove_at (z ∷ zs) (suc i) (suc j) h = get_elem?-remove_at zs i j (omega arith)

  count_of-pos : (xs : List A) (i : ℕ) (y : A) → get_elem? xs i ≡ some y → 1 ≤ count_of xs y
  unfolding count_of
  count_of-pos [] i y h = cc
  count_of-pos (z ∷ zs) zero y h = ground (arith, ==-refl y)
  count_of-pos (z ∷ zs) (suc i) y h = omega (arith, count_of-pos zs i y h)

  position :
      (xs : List A) (x : A)
      → 1 ≤ count_of xs x
      → (j : ℕ) × (j < length xs) × (get_elem? xs j ≡ some x)
  unfolding count_of
  position [] x h = absurd (omega arith)
  position (z ∷ zs) x h = elim (Bool-cases (x == z)) [
    | inl same ↦ (0, omega arith, rw ((e.same_bytes_iff x z).0 same))
    | inr other ↦
        let (j, below, there) = position zs x (ground arith) in (suc j, omega arith, there)
  ]

  -- The elements before index `i` stand once in the list.
  Once : ℕ → List A → Type ℓ
  Once i xs = (j : ℕ) (y : A) → j < i → get_elem? xs j ≡ some y → count_of xs y ≤ 1

  Once-all :
      (i : ℕ) (xs : List A) (x : A)
      → length xs ≤ i
      → Once i xs
      → count_of xs x ≡ min 1 (count_of xs x)
  unfolding Once
  Once-all i xs x h once = elim (Bool-cases (leb 1 (count_of xs x))) [
    | inr missing ↦ omega (arith, not-leb→lt _ _ missing)
    | inl there ↦
        let (j, below, found) = position xs x (leb→le _ _ there) in
        omega (arith, once j x (omega arith) found)
  ]

  Once-remove_at :
      (i : ℕ) (xs : List A) (y : A) → get_elem? xs i ≡ some y → Once i xs → Once i (remove_at i xs)
  unfolding Once
  Once-remove_at i xs y here once j z before there = omega (
    arith,
    count_of-remove_at xs i z y here,
    once j z before (sym (get_elem?-remove_at xs i j before) ∙ there),
  )

  Once-suc :
      (i : ℕ) (xs : List A) (y : A)
      → get_elem? xs i ≡ some y
      → count_of xs y ≤ 1
      → Once i xs
      → Once (i + 1) xs
  unfolding Once
  Once-suc i xs y here few once j z before there = elim (Bool-cases (ltb j i)) [
    | inl earlier ↦ once j z (ltb→lt _ _ earlier) there
    | inr later ↦
        let same : j ≡ i = omega (arith, not-ltb→le _ _ later) in
        let both : some z ≡ some y = sym there ∙ rw same here in
        let equal : z ≡ y = cc in rw equal few
  ]

  removed_min :
      (xs : List A) (i : ℕ) (x y : A)
      → get_elem? xs i ≡ some y
      → 1 < count_of xs y
      → min 1 (count_of (remove_at i xs) x) ≡ min 1 (count_of xs x)
  removed_min xs i x y here many = elim (Bool-cases (x == y)) [
    | inl same ↦
        let equal : x ≡ y = (e.same_bytes_iff x y).0 same in
        let one = rw same at (count_of-remove_at xs i x y here) in
        let more : 1 < count_of xs x = rw equal many in omega arith
    | inr other ↦ let zero_less = rw other at (count_of-remove_at xs i x y here) in omega arith
  ]

  step-end :
      (rounds i : ℕ) (a : DynArray A) → leb (len a) i ≡ true → setself_from (suc rounds) i a ≡ a
  unfolding setself_from
  step-end rounds i a out = ground arith

  step-remove :
      (rounds i : ℕ) (a : DynArray A) (y : A)
      → leb (len a) i ≡ false
      → get_elem? a.elements i ≡ some y
      → ltb 1 (count_of a.elements y) ≡ true
      → setself_from (suc rounds) i a
        ≡ setself_from rounds i (record a { elements = remove_at i a.elements })
  unfolding setself_from
  step-remove rounds i a y inside here many = rw (setself_from, inside, here, many, inside)

  step-next :
      (rounds i : ℕ) (a : DynArray A) (y : A)
      → leb (len a) i ≡ false
      → get_elem? a.elements i ≡ some y
      → ltb 1 (count_of a.elements y) ≡ false
      → setself_from (suc rounds) i a ≡ setself_from rounds (i + 1) a
  unfolding setself_from
  step-next rounds i a y inside here few = rw (setself_from, inside, here, few)

  setself_from_lem :
      (rounds i : ℕ) (a : DynArray A) (x : A)
      → len a ≤ rounds + i
      → Once i a.elements
      → count_of (setself_from rounds i a).elements x ≡ min 1 (count_of a.elements x)
  setself_from_lem zero i a x h once =
      unfold setself_from in Once-all i a.elements x (omega arith) once
  setself_from_lem (suc rounds) i a x h once = elim (Bool-cases (leb (len a) i)) [
    | inl out ↦ rw (step-end rounds i a out) (Once-all i a.elements x (leb→le _ _ out) once)
    | inr inside ↦
        let (y, here) = get_elem?-lt a.elements i (not-leb→lt _ _ inside) in
        elim (Bool-cases (ltb 1 (count_of a.elements y))) [
          | inl many ↦
              let b : DynArray A = record a { elements = remove_at i a.elements } in
              let rest =
                setself_from_lem rounds i b x
                  (omega (arith, length-remove_at i a.elements (not-leb→lt _ _ inside)))
                  (Once-remove_at i a.elements y here once) in
              rw (step-remove rounds i a y inside here many)
                (rest ∙ removed_min a.elements i x y here (ltb→lt _ _ many))
          | inr few ↦ rw (step-next rounds i a y inside here few) (
              setself_from_lem rounds (i + 1) a x (omega arith)
                (Once-suc i a.elements y here (not-ltb→le _ _ few) once))
        ]
  ]

  -- After `dyn_array_setself` an element stands in the array once if it stood there before, and not
  -- at all otherwise.
  pub setself-count : (a : DynArray A) (x : A) → count (setself a) x ≡ min 1 (count a x)
  unfolding count setself Once
  setself-count a x = setself_from_lem (len a) 0 a x (omega arith) (λ j y before. elim before [ ])
