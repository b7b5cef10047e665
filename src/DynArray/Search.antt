-- ===== src/DynArray/Search.antt =====
-- dyn_array.c: what the searches `dyn_array_index` and `dyn_array_count` return.
use soter.Base.{
  ℕ, suc, ◌+◌, ◌<◌, ◌≡◌, refl, ◌⊎◌, inl, inr, some, List, [], ◌∷◌, arith, length, get_elem?, take,
  size_max, MemEq, ◌==◌, Bool-cases,
}
use soter.DynArray.{DynArray, len, index, index_from, count_of, count}

module _ {ℓ} {A : Type ℓ} ⦃e : MemEq A⦄ where
  -- Where `x` first stands in the list, if it does.
  pub FirstAt : List A → A → ℕ → Type ℓ
  FirstAt xs x i = (get_elem? xs i ≡ some x) × (count_of (take i xs) x ≡ 0)

  index_from_lem :
      (xs : List A) (x : A) (i : ℕ)
      → i + length xs < size_max
      → ((index_from i xs x ≡ size_max) × (count_of xs x ≡ 0))
        ⊎ ((k : ℕ) × (k < length xs) × (index_from i xs x ≡ i + k) × FirstAt xs x k)
  unfolding index_from count_of FirstAt
  index_from_lem [] x i h = inl (refl, refl)
  index_from_lem (y ∷ ys) x i h = elim (Bool-cases (x == y)) [
    | inl same ↦
        inr (0, omega arith, rw same (omega arith), (rw ((e.same_bytes_iff x y).0 same), refl))
    | inr other ↦ elim (index_from_lem ys x (i + 1) (omega arith)) [
      | inl (nowhere, none_of) ↦ inl (rw other nowhere, rw other (omega (arith, none_of)))
      | inr (k, below, found, (there, before)) ↦ inr (
        suc k,
        omega arith,
        rw other (omega (arith, found)),
        (there, rw other (omega (arith, before))),
      )
    ]
  ]

  -- `dyn_array_index` returns the index of the first element equal to the one it is given, or
  -- `SIZE_MAX` when none of them is; the array is assumed shorter than `SIZE_MAX`.
  pub index-FirstAt :
      (a : DynArray A) (x : A)
      → len a < size_max
      → ((index a x ≡ size_max) × (count a x ≡ 0))
        ⊎ ((index a x < len a) × FirstAt a.elements x (index a x))
  unfolding index count FirstAt
  index-FirstAt a x h = elim (index_from_lem a.elements x 0 (omega arith)) [
    | inl nowhere ↦ inl nowhere
    | inr (k, below, found, at_k) ↦
        let here : index_from 0 a.elements x ≡ k = omega (arith, found) in
        inr (rw here below, rw here at_k)
  ]
