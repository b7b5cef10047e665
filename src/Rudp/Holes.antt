-- ===== src/Rudp/Holes.antt =====
-- The array `pkts_fhost` of packets that wait for an acknowledgement, as dispatcher.c and
-- connection.c take elements out of it: the last element moves into the hole.
use soter.Base.{
  last_of, init_of, ℕ, ◌+◌, ◌≡◌, refl, Bool, true, ◌&&◌, List, [], ◌∷◌, arith, length,
  if◌then◌else◌, ◌≤◌, ◌++◌, inl, inr, Bool-cases, All, map,
}

module _ {ℓ} {A : Type ℓ} where
  -- What stands from the hole on, once the last element has moved into it: the argument is what
  -- stood behind the hole.
  unfoldable pub fill : List A → List A
  fill [] = []
  fill (y ∷ ys) = last_of y ys ∷ init_of y ys

  unfoldable pub count_if : (A → Bool) → List A → ℕ
  count_if f [] = 0
  count_if f (x ∷ xs) = (if f x then 1 else 0) + count_if f xs

  pub length-fill : (xs : List A) → length (fill xs) ≡ length xs
  unfolding fill
  length-fill [] = refl
  length-fill (y ∷ []) = refl
  length-fill (y ∷ z ∷ zs) = omega (arith, length-fill (z ∷ zs))

  -- As a multiset nothing changes.
  pub count_if-fill : (f : A → Bool) (xs : List A) → count_if f (fill xs) ≡ count_if f xs
  unfolding fill count_if
  count_if-fill f [] = refl
  count_if-fill f (y ∷ []) = refl
  count_if-fill f (y ∷ z ∷ zs) = omega (arith, count_if-fill f (z ∷ zs))

  pub count_if-append :
      (f : A → Bool) (xs ys : List A) → count_if f (xs ++ ys) ≡ count_if f xs + count_if f ys
  unfolding count_if
  count_if-append f [] ys = omega arith
  count_if-append f (x ∷ xs) ys = omega (arith, count_if-append f xs ys)

  pub count_if_le : (f : A → Bool) (xs : List A) → count_if f xs ≤ length xs
  unfolding count_if
  count_if_le f [] = omega arith
  count_if_le f (x ∷ xs) = elim (Bool-cases (f x)) [
    | inl e ↦ simp e (omega (arith, count_if_le f xs))
    | inr e ↦ simp e (omega (arith, count_if_le f xs))
  ]

  pub count_if-always : (xs : List A) → count_if (λ _. true) xs ≡ length xs
  unfolding count_if
  count_if-always [] = refl
  count_if-always (x ∷ xs) = omega (arith, count_if-always xs)

  pub count_if_cong :
      (f g : A → Bool) (same : (x : A) → f x ≡ g x) (xs : List A) → count_if f xs ≡ count_if g xs
  unfolding count_if
  count_if_cong f g same [] = refl
  count_if_cong f g same (x ∷ xs) = simp (same x) (omega (arith, count_if_cong f g same xs))

  -- A test that implies another counts at most as much.
  pub count_if-both : (f g : A → Bool) (xs : List A) → count_if (λ x. f x && g x) xs ≤ count_if g xs
  unfolding count_if
  count_if-both f g [] = omega arith
  count_if-both f g (x ∷ xs) = elim (Bool-cases (f x)) [
    | inl e ↦ simp e (omega (arith, count_if-both f g xs))
    | inr e ↦ simp e (omega (arith, count_if-both f g xs))
  ]

  pub All-fill {κ} : (P : A → Type κ) (xs : List A) → All P xs → All P (fill xs)
  unfolding fill
  All-fill P [] h = h
  All-fill P (y ∷ []) h = h
  All-fill P (y ∷ z ∷ zs) (hy, hs) = let (l, i) = All-fill P (z ∷ zs) hs in (l, (hy, i))

pub count_if-map {ℓ κ} :
    {A : Type ℓ}
    → {B : Type κ} → (f : B → Bool) (g : A → B) (xs : List A)
    → count_if f (map g xs) ≡ count_if (λ x. f (g x)) xs
unfolding count_if
count_if-map f g [] = refl
count_if-map f g (x ∷ xs) = omega (arith, count_if-map f g xs)
