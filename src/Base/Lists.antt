-- ===== src/Base/Lists.antt =====
-- Lists measured and indexed by native numbers, under the library's names, with the two moves that
-- `memmove` makes in an array: opening a gap and closing one.
use Prim.Native.Nat.{ℕ, zero, suc, ◌+◌, ◌-◌, ◌≤◌, ◌<◌, min}
use mathlib.Core.Path.{◌≡◌, refl, ap}
use mathlib.Core.List.{map, List, [], ◌∷◌, ◌++◌}
use mathlib.Core.Option.{Option, none, some}
use native.Mathlib.Omega.{arith}

module _ {ℓ} {A : Type ℓ} where
  abbrev pub length : List A → ℕ
  length [] = 0
  length (x ∷ xs) = suc (length xs)

  abbrev pub get_elem? : List A → ℕ → Option A
  get_elem? [] i = none
  get_elem? (x ∷ xs) zero = some x
  get_elem? (x ∷ xs) (suc i) = get_elem? xs i

  abbrev pub set : List A → ℕ → A → List A
  set [] i v = []
  set (x ∷ xs) zero v = v ∷ xs
  set (x ∷ xs) (suc i) v = x ∷ set xs i v

  abbrev pub take : ℕ → List A → List A
  take zero xs = []
  take (suc n) [] = []
  take (suc n) (x ∷ xs) = x ∷ take n xs

  abbrev pub drop : ℕ → List A → List A
  drop zero xs = xs
  drop (suc n) [] = []
  drop (suc n) (x ∷ xs) = drop n xs

  abbrev pub replicate : ℕ → A → List A
  replicate zero a = []
  replicate (suc n) a = a ∷ replicate n a

  -- The elements from `n` on move one place up, and `x` takes the gap.
  abbrev pub insert_at : ℕ → A → List A → List A
  insert_at zero x xs = x ∷ xs
  insert_at (suc n) x [] = x ∷ []
  insert_at (suc n) x (y ∷ ys) = y ∷ insert_at n x ys

  -- The elements after `n` move one place down.
  abbrev pub remove_at : ℕ → List A → List A
  remove_at n [] = []
  remove_at zero (x ∷ xs) = xs
  remove_at (suc n) (x ∷ xs) = x ∷ remove_at n xs

  -- The last element of a list that is not empty, and the others.
  abbrev pub last_of : A → List A → A
  last_of x [] = x
  last_of x (y ∷ ys) = last_of y ys

  abbrev pub init_of : A → List A → List A
  init_of x [] = []
  init_of x (y ∷ ys) = x ∷ init_of y ys

module _ {ℓ} {A : Type ℓ} where
  pub length-append : (xs ys : List A) → length (xs ++ ys) ≡ length xs + length ys
  length-append [] ys = omega arith
  length-append (x ∷ xs) ys = omega (arith, length-append xs ys)

  pub length-set : (xs : List A) (i : ℕ) (v : A) → length (set xs i v) ≡ length xs
  length-set [] i v = refl
  length-set (x ∷ xs) zero v = refl
  length-set (x ∷ xs) (suc i) v = ap suc (length-set xs i v)

  pub length-replicate : (n : ℕ) (a : A) → length (replicate n a) ≡ n
  length-replicate zero a = refl
  length-replicate (suc n) a = ap suc (length-replicate n a)

  pub length-take : (n : ℕ) (xs : List A) → length (take n xs) ≡ min n (length xs)
  length-take zero xs = omega arith
  length-take (suc n) [] = omega arith
  length-take (suc n) (x ∷ xs) = omega (arith, length-take n xs)

  pub length-drop : (n : ℕ) (xs : List A) → length (drop n xs) ≡ length xs - n
  length-drop zero xs = omega arith
  length-drop (suc n) [] = omega arith
  length-drop (suc n) (x ∷ xs) = omega (arith, length-drop n xs)

  pub length-insert_at : (n : ℕ) (x : A) (xs : List A) → length (insert_at n x xs) ≡ suc (length xs)
  length-insert_at zero x xs = refl
  length-insert_at (suc n) x [] = refl
  length-insert_at (suc n) x (y ∷ ys) = ap suc (length-insert_at n x ys)

  pub length-remove_at :
      (n : ℕ) (xs : List A) → n < length xs → suc (length (remove_at n xs)) ≡ length xs
  length-remove_at n [] h = elim h [ ]
  length-remove_at zero (x ∷ xs) h = refl
  length-remove_at (suc n) (x ∷ xs) h = ap suc (length-remove_at n xs (omega arith))

  pub length-remove_at_le : (n : ℕ) (xs : List A) → length (remove_at n xs) ≤ length xs
  length-remove_at_le n [] = omega arith
  length-remove_at_le zero (x ∷ xs) = omega arith
  length-remove_at_le (suc n) (x ∷ xs) = omega (arith, length-remove_at_le n xs)

  pub insert_at-take-drop :
      (n : ℕ) (x : A) (xs : List A) → insert_at n x xs ≡ take n xs ++ (x ∷ drop n xs)
  insert_at-take-drop zero x xs = refl
  insert_at-take-drop (suc n) x [] = refl
  insert_at-take-drop (suc n) x (y ∷ ys) = ap (λ t. y ∷ t) (insert_at-take-drop n x ys)

  pub insert_at-length : (x : A) (xs : List A) → insert_at (length xs) x xs ≡ xs ++ (x ∷ [])
  insert_at-length x [] = refl
  insert_at-length x (y ∷ ys) = ap (λ t. y ∷ t) (insert_at-length x ys)

  pub remove_at-take-drop : (n : ℕ) (xs : List A) → remove_at n xs ≡ take n xs ++ drop (suc n) xs
  remove_at-take-drop zero [] = refl
  remove_at-take-drop (suc n) [] = refl
  remove_at-take-drop zero (x ∷ xs) = refl
  remove_at-take-drop (suc n) (x ∷ xs) = ap (λ t. x ∷ t) (remove_at-take-drop n xs)

  pub remove_at-insert_at :
      (n : ℕ) (x : A) (xs : List A) → n ≤ length xs → remove_at n (insert_at n x xs) ≡ xs
  remove_at-insert_at zero x xs h = refl
  remove_at-insert_at (suc n) x [] h = absurd (omega arith)
  remove_at-insert_at (suc n) x (y ∷ ys) h =
      ap (λ t. y ∷ t) (remove_at-insert_at n x ys (omega arith))

  pub get_elem?-lt : (xs : List A) (i : ℕ) → i < length xs → (a : A) × (get_elem? xs i ≡ some a)
  get_elem?-lt [] i h = elim h [ ]
  get_elem?-lt (x ∷ xs) zero h = (x, refl)
  get_elem?-lt (x ∷ xs) (suc i) h = get_elem?-lt xs i (omega arith)

  pub get_elem?-ge : (xs : List A) (i : ℕ) → length xs ≤ i → get_elem? xs i ≡ none
  get_elem?-ge [] i h = refl
  get_elem?-ge (x ∷ xs) zero h = absurd (omega arith)
  get_elem?-ge (x ∷ xs) (suc i) h = get_elem?-ge xs i (omega arith)

module _ {ℓ} {A : Type ℓ} where
  pub take-length-append : (xs ys : List A) (n : ℕ) → n ≡ length xs → take n (xs ++ ys) ≡ xs
  take-length-append [] ys zero h = refl
  take-length-append [] ys (suc n) h = absurd (omega arith)
  take-length-append (x ∷ xs) ys zero h = absurd (omega arith)
  take-length-append (x ∷ xs) ys (suc n) h =
      ap (λ t. x ∷ t) (take-length-append xs ys n (omega arith))

  pub take-length : (xs : List A) → take (length xs) xs ≡ xs
  take-length [] = refl
  take-length (x ∷ xs) = ap (λ t. x ∷ t) (take-length xs)

  pub take_all : (n : ℕ) (xs : List A) → length xs ≤ n → take n xs ≡ xs
  take_all zero [] h = refl
  take_all zero (x ∷ xs) h = absurd (omega (arith, h))
  take_all (suc n) [] h = refl
  take_all (suc n) (x ∷ xs) h = ap (λ t. x ∷ t) (take_all n xs (omega (arith, h)))

  pub drop-length-append : (xs ys : List A) (n : ℕ) → n ≡ length xs → drop n (xs ++ ys) ≡ ys
  drop-length-append [] ys zero h = refl
  drop-length-append [] ys (suc n) h = absurd (omega arith)
  drop-length-append (x ∷ xs) ys zero h = absurd (omega arith)
  drop-length-append (x ∷ xs) ys (suc n) h = drop-length-append xs ys n (omega arith)

  -- What lies past the first of two lists is in the second.
  pub drop-append : (xs ys : List A) (n k : ℕ) → n ≡ length xs + k → drop n (xs ++ ys) ≡ drop k ys
  drop-append [] ys n k h = ap (λ j. drop j ys) (omega (arith, h))
  drop-append (x ∷ xs) ys zero k h = absurd (omega arith)
  drop-append (x ∷ xs) ys (suc n) k h = drop-append xs ys n k (omega arith)

  -- A predicate of every element, which computes to a tuple.
  abbrev pub All {κ} : (A → Type κ) → List A → Type κ
  All P [] = Unit
  All P (x ∷ xs) = P x × All P xs

module _ {ℓ κ} {A : Type ℓ} (P : A → Type κ) where
  pub All-append : (xs ys : List A) → All P xs → All P ys → All P (xs ++ ys)
  All-append [] ys hx hy = hy
  All-append (x ∷ xs) ys hx hy = (hx.0, All-append xs ys hx.1 hy)

  pub All-insert_at : (n : ℕ) (x : A) (xs : List A) → P x → All P xs → All P (insert_at n x xs)
  All-insert_at zero x xs p h = (p, h)
  All-insert_at (suc n) x [] p h = (p, tt)
  All-insert_at (suc n) x (y ∷ ys) p h = (h.0, All-insert_at n x ys p h.1)

  pub All-remove_at : (n : ℕ) (xs : List A) → All P xs → All P (remove_at n xs)
  All-remove_at n [] h = h
  All-remove_at zero (x ∷ xs) h = h.1
  All-remove_at (suc n) (x ∷ xs) h = (h.0, All-remove_at n xs h.1)

pub All-map {ℓ κ μ} :
    {A : Type ℓ} (P : A → Type κ) (Q : A → Type μ)
    → ((a : A) → P a → Q a)
    → (xs : List A) → All P xs
    → All Q xs
All-map P Q f [] h = tt
All-map P Q f (x ∷ xs) h = (f x h.0, All-map P Q f xs h.1)

pub length-map {ℓ κ} :
    {A : Type ℓ} → {B : Type κ} → (f : A → B) (xs : List A) → length (map f xs) ≡ length xs
length-map f [] = refl
length-map f (x ∷ xs) = ap suc (length-map f xs)
