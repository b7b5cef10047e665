-- ===== src/Tests/Tables.antt =====
-- dyn_table.c on a table of numbers.
use soter.Base.{ℕ, true, [], ◌∷◌, arith, eqb, eqb→eq, Bool-cases, inl, inr, nat_bytes}
use soter.Table.{Table, set}
use soter.Table.Map.{IsMap, Sets, keys, set_lem}

abbrev two_peers : Table ℕ ℕ
two_peers = record { flags = record { key = true; val = true }; pairs = (1, 10) ∷ (2, 20) ∷ [] }

two_peers-IsMap : IsMap two_peers.pairs
unfolding keys
two_peers-IsMap k = elim (Bool-cases (eqb 1 k)) [
  | inl first ↦ rw (← eqb→eq 1 k first) (omega arith)
  | inr other ↦
      rw other
        (elim (Bool-cases (eqb 2 k)) [ inl e ↦ rw e (omega arith) | inr e ↦ rw e (omega arith) ])
]

set_lem_example :
    Sets two_peers 3 30 1 (set (record { key = true; val = true; array = true }) two_peers 3 30)
set_lem_example =
    set_lem (record { key = true; val = true; array = true }) two_peers 3 30 1 two_peers-IsMap
