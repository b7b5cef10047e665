-- ===== src/DynArray/Shape.antt =====
-- dyn_array.c: what an array keeps between calls, and that no growing operation leaves its block.
use soter.Base.{
  ℕ, suc, ◌*◌, ◌≤◌, ◌<◌, ◌≡◌, refl, ◌∙◌, ◌⊎◌, inl, inr, Bool, true, false, List, [], ◌∷◌, ◌++◌, ap,
  none, some, arith, leb, ltb, eqb, mul_size, length, take, drop, insert_at, remove_at, size_mod,
  size_max, sub_size, Bool-cases, length-insert_at, length-remove_at_le, insert_at-take-drop,
  insert_at-length, remove_at-take-drop, leb→le, not-leb→lt,
}
use native.Mathlib.Nat.{mod-eq_of_lt}
use soter.DynArray.{
  DynArray, Outcome, done, failed, overrun, len, create, realloc, reserve, store, push, resize,
  from_c, remove, insert,
}

-- One element slot is always kept free: `len` stays below `head`.  A block of `head` elements stands
-- behind the array as soon as `head` has grown past its first value 1.
pub record IsValid {ℓ} {A : Type ℓ} (a : DynArray A) : Type 0 where
  pub room : len a < a.head
  pub small : a.head * 2 < size_mod
  pub block : 1 < a.head → a.head * a.element_size ≤ a.bytes

-- A doubled block has a size that `size_t` can hold.
abbrev pub Doubles {ℓ} : {A : Type ℓ} → DynArray A → Type 0
Doubles a = (a.head * 4 < size_mod) × (a.head * 2 * a.element_size < size_mod)

module _ {ℓ} {A : Type ℓ} where
  pub create-IsValid : (es : ℕ) → IsValid (create {A = A} es)
  unfolding create
  create-IsValid es = record {
    room = omega arith;
    small = omega arith;
    block = λ h. absurd (omega arith);
  }

  -- What a growing call leaves: the array unchanged and a refusal, or the new elements.
  pub Grows : Bool → DynArray A → List A → Outcome (DynArray A) → Type ℓ
  Grows granted a xs r =
      ((r ≡ failed a) × (granted ≡ false))
      ⊎ ((b : DynArray A) × (r ≡ done b)
          × (b.elements ≡ xs)
          × IsValid b
          × (b.element_size ≡ a.element_size))

  -- Room for one more element.
  record HasRoom (a b : DynArray A) : Type ℓ where
    same : b.elements ≡ a.elements
    size : b.element_size ≡ a.element_size
    room : suc (len a) < b.head
    small : b.head * 2 < size_mod
    block : b.head * b.element_size ≤ b.bytes

  reserve-HasRoom :
      (granted : Bool) (capacity : ℕ) (a : DynArray A)
      → IsValid a
      → Doubles a
      → capacity ≡ a.head * 2
      → ((reserve granted capacity a ≡ none) × (granted ≡ false))
        ⊎ ((b : DynArray A) × (reserve granted capacity a ≡ some b) × HasRoom a b)
  unfolding reserve realloc
  reserve-HasRoom true capacity a v d e = elim (Bool-cases (leb (sub_size a.head 1) (len a))) [
    | inl full ↦ inr (
      record a { head = capacity; bytes = mul_size capacity a.element_size },
      rw full,
      record {
        same = refl;
        size = refl;
        room = rw e (omega (arith, leb→le _ _ full));
        small = rw e (omega arith);
        block = rw (e, mod-eq_of_lt d.1) (omega arith);
      },
    )
    | inr free ↦ inr (a, rw free, kept free)
  ]
    where
      kept : leb (sub_size a.head 1) (len a) ≡ false → HasRoom a a
      kept free = record {
        same = refl;
        size = refl;
        room = omega (arith, not-leb→lt _ _ free);
        small = v.small;
        block = v.block (omega (arith, not-leb→lt _ _ free));
      }
  reserve-HasRoom false capacity a v d e = elim (Bool-cases (leb (sub_size a.head 1) (len a))) [
    | inl full ↦ inl (rw full, refl)
    | inr free ↦ inr (
      a,
      rw free,
      record {
        same = refl;
        size = refl;
        room = omega (arith, not-leb→lt _ _ free);
        small = v.small;
        block = v.block (omega (arith, not-leb→lt _ _ free));
      },
    )
  ]

  store_lem :
      (a b : DynArray A) (xs : List A)
      → HasRoom a b
      → length xs ≡ suc (len a)
      → (c : DynArray A) × (store b xs ≡ done c)
        × (c.elements ≡ xs)
        × IsValid c
        × (c.element_size ≡ a.element_size)
  unfolding store
  store_lem a b xs h e =
      let fits : suc (len b) * b.element_size ≤ b.bytes =
        grind (arith, h.block, h.room, ap length h.same) in
      (
        record b { elements = xs },
        ground (arith, fits),
        refl,
        record { room = rw e h.room; small = h.small; block = λ _. h.block },
        h.size,
      )

  -- On a valid array whose doubled block has a size that `size_t` holds, a push either is refused
  -- by `realloc`, and then leaves the array as it was, or appends the element and leaves a valid
  -- array.  It never writes past the block.
  pub push-Grows :
      (granted : Bool) (a : DynArray A) (x : A)
      → IsValid a
      → Doubles a
      → Grows granted a (a.elements ++ (x ∷ [])) (push granted a x)
  unfolding push Grows
  push-Grows granted a x v d =
      elim (reserve-HasRoom granted (mul_size a.head 2) a v d (mod-eq_of_lt v.small)) [
        | inl (e, refused) ↦ inl (rw (e, push), refused)
        | inr (b, e, h) ↦
            let appended : insert_at (len b) x b.elements ≡ a.elements ++ (x ∷ []) =
              insert_at-length x b.elements ∙ ap (λ t. t ++ (x ∷ [])) h.same in
            let (c, run, same, valid, size) = store_lem a b _ h (rw (length-insert_at, h.same)) in
            inr (c, rw (e, push) run, same ∙ appended, valid, size)
      ]

  -- An insertion at an index up to `len` does the same with the element put at that index, the
  -- elements from there on moved one place up.
  pub insert-Grows :
      (granted : Bool) (a : DynArray A) (index : ℕ) (x : A)
      → index ≤ len a
      → IsValid a
      → Doubles a
      → Grows granted a
          (take index a.elements ++ (x ∷ drop index a.elements))
          (insert granted a index x)
  unfolding insert Grows
  insert-Grows granted a index x within v d =
      let inside : ltb (len a) index ≡ false = ground arith in
      let positive : eqb a.head 0 ≡ false = ground (arith, v.room) in
      elim (reserve-HasRoom granted (mul_size a.head 2) a v d (mod-eq_of_lt v.small)) [
        | inl (e, refused) ↦ inl (rw (inside, positive, e), refused)
        | inr (b, e, h) ↦
            let opened : insert_at index x b.elements
                ≡ take index a.elements ++ (x ∷ drop index a.elements) =
              rw h.same (insert_at-take-drop index x a.elements) in
            let (c, run, same, valid, size) = store_lem a b _ h (rw (length-insert_at, h.same)) in
            inr (c, rw (inside, positive, e) run, same ∙ opened, valid, size)
      ]

  -- An insertion past the end is refused.
  pub insert-past_end :
      (granted : Bool) (a : DynArray A) (index : ℕ) (x : A)
      → len a < index
      → insert granted a index x ≡ failed a
  unfolding insert
  insert-past_end granted a index x h = ground arith

  -- A removal at an index below `len` drops exactly that element; any other leaves the array as it
  -- was with the status -1.  Either way the array stays valid.
  pub remove-drop :
      (a : DynArray A) (index : ℕ)
      → IsValid a
      → ((index < len a)
          × (b : DynArray A) × (remove a index ≡ done b)
          × (b.elements ≡ take index a.elements ++ drop (suc index) a.elements)
          × IsValid b)
        ⊎ ((len a ≤ index) × (remove a index ≡ failed a))
  unfolding remove
  remove-drop a index v = elim (Bool-cases (leb (len a) index)) [
    | inl out ↦ inr (leb→le _ _ out, rw out)
    | inr inside ↦ inl (
      not-leb→lt _ _ inside,
      record a { elements = remove_at index a.elements },
      rw inside,
      remove_at-take-drop index a.elements,
      record {
        room = omega (arith, v.room, length-remove_at_le index a.elements);
        small = v.small;
        block = v.block;
      },
    )
  ]

  -- `dyn_array_from_c` grows the fresh array only once, to two elements: with more elements than
  -- that, of a size above 0 that fits a `size_t`, its copy leaves the block.
  pub from_c-overrun :
      (element_size : ℕ) (xs : List A)
      → 0 < element_size
      → 2 * element_size < size_mod
      → 2 < length xs
      → length xs < size_max
      → from_c true element_size xs ≡ overrun
  unfolding from_c resize create realloc
  from_c-overrun element_size xs pos fits many few =
      let more : 2 * element_size < length xs * element_size = grind arith in ground (arith, more)
