-- ===== src/Table.antt =====
-- code/devcore/base/src/base/dyn_table.c, under the mutex of prot_table.c: the table of peers, of
-- connections and of pending requests.  The array of pairs is the list of its pairs in order; what
-- its growth can do is DynArray's.  A pair that the table owns holds copies made by `malloc`; one
-- that it does not own holds the caller's pointers, and then `K` or `V` is that pointer's target,
-- which the caller is to leave alone.
pub mod Map
use soter.Base.{
  ℕ, zero, suc, ◌+◌, Bool, true, false, not, ◌&&◌, ◌||◌, Option, none, some, List, [], ◌∷◌, ◌++◌,
  leb, if◌then◌else◌, length, get_elem?, remove_at, MemEq, ◌==◌,
}

-- `dyn_own_t`
pub record Own : Type 0 where
  pub key : Bool
  pub val : Bool

-- Which of the allocations of a call succeed: the copies of key and value, and the array's growth.
pub record Grants : Type 0 where
  pub key : Bool
  pub val : Bool
  pub array : Bool

pub record Table {ℓ} (K V : Type ℓ) : Type ℓ where
  pub flags : Own
  pub pairs : List (K × V)

-- The status that an `int` function returns.
pub data Status : Type 0 where
  ok fail : Status

module _ {ℓ} {K V : Type ℓ} where
  pub create : Own → Table K V
  create flags = record { flags = flags; pairs = [] }

  -- A pair at an index, and the index after it.
  pub iterate : Table K V → ℕ → Option ((K × V) × ℕ)
  iterate t inx = elim (get_elem? t.pairs inx) [ none ↦ none | some pair ↦ some (pair, inx + 1) ]

  pub end_table : Table K V → Table K V
  end_table t = record t { pairs = [] }

module _ {ℓ} {K V : Type ℓ} where
  -- `pair->second` of the pair at an index is replaced.
  abbrev pub set_second : List (K × V) → ℕ → V → List (K × V)
  set_second [] i v = []
  set_second (p ∷ ps) zero v = (p.0, v) ∷ ps
  set_second (p ∷ ps) (suc i) v = p ∷ set_second ps i v

module _ {ℓ} {K V : Type ℓ} ⦃e : MemEq K⦄ where
  -- The loop of `_dyn_table_find_idx` from index `i` on; `none` is `SIZE_MAX`.
  unfoldable pub find_idx_from : ℕ → List (K × V) → K → Option ℕ
  find_idx_from i [] k = none
  find_idx_from i (p ∷ ps) k =
      let rest = find_idx_from (i + 1) ps k in if p.0 == k then some i else rest

  unfoldable pub find_idx : Table K V → K → Option ℕ
  unfolding find_idx_from
  find_idx t k = find_idx_from 0 t.pairs k

  pub set : Grants → Table K V → K → V → Status × Table K V
  set granted t k v = elim (find_idx t k) [
    | some idx ↦ (ok, record t { pairs = set_second t.pairs idx v })
    | none ↦
        if (t.flags.key && not granted.key) || (t.flags.val && not granted.val)
        then (fail, t)
        else if granted.array
        then (ok, record t { pairs = t.pairs ++ ((k, v) ∷ []) })
        else (fail, t)
  ]

  pub remove : Table K V → K → Status × Table K V
  remove t k = elim (find_idx t k) [
    | none ↦ (fail, t)
    | some idx ↦ (ok, record t { pairs = remove_at idx t.pairs })
  ]

  -- `none` is the null pointer.
  unfoldable pub get : Table K V → K → Option V
  get t k = elim (find_idx t k) [
    | none ↦ none
    | some idx ↦ elim (get_elem? t.pairs idx) [ none ↦ none | some p ↦ some p.1 ]
  ]

  -- A write through the pointer that `get` returned, as the program makes under the table's lock.
  pub modify : Table K V → K → (V → V) → Option (Table K V)
  modify t k f = elim (find_idx t k) [
    | none ↦ none
    | some idx ↦ elim (get_elem? t.pairs idx) [
      | none ↦ none
      | some p ↦ some (record t { pairs = set_second t.pairs idx (f p.1) })
    ]
  ]
