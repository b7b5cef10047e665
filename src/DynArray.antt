-- ===== src/DynArray.antt =====
-- code/devcore/base/src/base/dyn_array.c: the growing array under every container of the program.
-- An array is the list of its first `len` elements, the element count `head` that it believes to
-- have room for, and `bytes`, the size of the block behind `elements` (0 for NULL).  A copy that
-- would leave that block is the outcome `overrun`.  `granted` tells whether `realloc` succeeds.
-- The array's own pointer is taken to be non-null.
pub mod Shape
pub mod Search
pub mod Distinct
use soter.Base.{
  ℕ, zero, suc, ◌+◌, ◌-◌, ◌*◌, ◌%◌, ◌≡◌, Bool, true, false, ◌||◌, ◌&&◌, Option, none, some, List,
  [], ◌∷◌, ltb, leb, eqb, if◌then◌else◌, length, get_elem?, take, insert_at, remove_at, size_max,
  size_mod, sub_size, mul_size, MemEq, ◌==◌,
}

pub record DynArray {ℓ} (A : Type ℓ) : Type ℓ where
  pub elements : List A
  pub head : ℕ
  pub element_size : ℕ
  pub bytes : ℕ

-- `done` carries the status 0, `failed` the status -1; both leave an array.
pub data Outcome {ℓ} (S : Type ℓ) : Type ℓ where
  done : S → Outcome S
  failed : S → Outcome S
  overrun : Outcome S

-- The state after a call whose status the caller ignores.
abbrev pub state_of {ℓ} : {S : Type ℓ} → S → Outcome S → S
state_of s (done s') = s'
state_of s (failed s') = s'
state_of s overrun = s

module _ {ℓ} {A : Type ℓ} where
  abbrev pub len : DynArray A → ℕ
  len a = length a.elements

  pub create : ℕ → DynArray A
  create element_size = record { elements = []; head = 1; element_size = element_size; bytes = 0 }

  -- `realloc(elements, capacity * element_size)`, then `head = capacity`
  realloc : Bool → ℕ → DynArray A → Option (DynArray A)
  realloc granted capacity a =
      if granted
      then some (record a { head = capacity; bytes = mul_size capacity a.element_size })
      else none

  -- Growth by the test that `dyn_array_push` and `dyn_array_insert` share.
  reserve : Bool → ℕ → DynArray A → Option (DynArray A)
  unfolding realloc
  reserve granted capacity a =
      if leb (sub_size a.head 1) (len a) then realloc granted capacity a else some a

  -- The copies that leave `xs`, one element more than before, in the block.
  store : DynArray A → List A → Outcome (DynArray A)
  store b xs =
      if ltb b.bytes (suc (len b) * b.element_size)
      then overrun
      else done (record b { elements = xs })

  pub push : Bool → DynArray A → A → Outcome (DynArray A)
  unfolding reserve store
  push granted a x = elim (reserve granted (mul_size a.head 2) a) [
    | none ↦ failed a
    | some b ↦ store b (insert_at (len b) x b.elements)
  ]

  -- The one growth step of `dyn_array_resize`.
  pub resize : Bool → DynArray A → ℕ → Outcome (DynArray A)
  unfolding realloc
  resize granted a s =
      if eqb s size_max
      then failed a
      else if leb (sub_size a.head 1) s
      then elim (realloc granted (mul_size a.head 2) a) [ none ↦ failed a | some b ↦ done b ]
      else done a

  -- `memcpy` of all the given elements follows whatever `dyn_array_resize` has made.
  pub from_c : Bool → ℕ → List A → Outcome (DynArray A)
  unfolding create resize
  from_c granted element_size xs = elim (resize granted (create element_size) (length xs)) [
    | failed a ↦ failed a
    | overrun ↦ overrun
    | done a ↦
        if ltb a.bytes (length xs * element_size)
        then overrun
        else done (record a { elements = xs })
  ]

  pub remove : DynArray A → ℕ → Outcome (DynArray A)
  remove a index =
      if leb (len a) index
      then failed a
      else done (record a { elements = remove_at index a.elements })

  pub at : DynArray A → ℕ → Option A
  at a index = if leb (len a) index then none else get_elem? a.elements index

  -- The move of the tail and the copy end at most one element past `len`.
  pub insert : Bool → DynArray A → ℕ → A → Outcome (DynArray A)
  unfolding reserve store
  insert granted a index x =
      if ltb (len a) index
      then failed a
      else elim (reserve granted (if eqb a.head 0 then 2 else mul_size a.head 2) a) [
        | none ↦ failed a
        | some b ↦ store b (insert_at index x b.elements)
      ]

  -- `qsort` is the C library's: a parameter.
  pub sort : (List A → List A) → DynArray A → DynArray A
  sort qsort a = if leb (len a) 1 then a else record a { elements = qsort a.elements }

  pub end_array : DynArray A → DynArray A
  end_array a = record { elements = []; head = 0; element_size = 0; bytes = 0 }

module _ {ℓ} {A : Type ℓ} ⦃e : MemEq A⦄ where
  -- The loop of `dyn_array_index` from index `i` on.
  index_from : ℕ → List A → A → ℕ
  index_from i [] x = size_max
  index_from i (y ∷ ys) x = let rest = index_from (i + 1) ys x in if x == y then i else rest

  pub index : DynArray A → A → ℕ
  unfolding index_from
  index a x = index_from 0 a.elements x

  -- The loop of `dyn_array_count`.
  pub count_of : List A → A → ℕ
  count_of [] x = 0
  count_of (y ∷ ys) x = (if x == y then 1 else 0) + count_of ys x

  pub count : DynArray A → A → ℕ
  unfolding count_of
  count a x = count_of a.elements x

  -- The loop of `dyn_array_setself`: a round either removes an element or steps over one, so that
  -- `len - i` rounds are left.
  setself_from : ℕ → ℕ → DynArray A → DynArray A
  unfolding at count remove
  setself_from zero i a = a
  setself_from (suc rounds) i a = elim (at a i) [
    | none ↦ a
    | some x ↦ elim (ltb 1 (count a x)) [
      | true ↦ setself_from rounds i (state_of a (remove a i))
      | false ↦ setself_from rounds (i + 1) a
    ]
  ]

  pub setself : DynArray A → DynArray A
  unfolding setself_from
  setself a = setself_from (len a) 0 a
