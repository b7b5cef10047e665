-- ===== src/Queue.antt =====
-- code/devcore/base/src/base/prot_queue.c: the queue that carries packets between the threads, a
-- ring of cells that doubles when it is full.  The mutex is held through each operation, so that an
-- operation is one step on the state.  The block is a function from cell indices below `cap`;
-- `junk` is what `malloc` leaves in fresh cells, and `malloc` in the growth step, whose result the
-- code does not test, is taken to succeed.
pub mod Ring
pub mod Fifo
use soter.Base.{
  ℕ, zero, suc, ◌+◌, ◌-◌, ◌%◌, Bool, true, false, Option, none, some, List, [], ◌∷◌, eqb, ltb,
  if◌then◌else◌, add_size, mul_size, MemEq, ◌==◌,
}

pub record Queue {ℓ} (A : Type ℓ) : Type ℓ where
  pub cells : ℕ → A
  pub cap : ℕ
  pub head : ℕ
  pub tail : ℕ
  pub count : ℕ

abbrev pub update {ℓ} : {A : Type ℓ} → (ℕ → A) → ℕ → A → ℕ → A
update cells i x j = if eqb i j then x else cells j

module _ {ℓ} {A : Type ℓ} where
  pub fresh : A → Queue A
  fresh zeroed = record { cells = λ _. zeroed; cap = 1024; head = 0; tail = 0; count = 0 }

  -- `calloc` gives zeroed cells, or fails.
  pub create : Bool → A → Option (Queue A)
  unfolding fresh
  create granted zeroed = if granted then some (fresh zeroed) else none

  -- The cell that stands `i` places behind the head.
  abbrev pub cell_at : Queue A → ℕ → ℕ
  cell_at q i = add_size q.head i % q.cap

  -- The copying loop of `_prot_queue_grow_unsafe` after `n` rounds.
  copied : Queue A → (ℕ → A) → ℕ → ℕ → A
  copied q fresh zero = fresh
  copied q fresh (suc n) = update (copied q fresh n) n (q.cells (cell_at q n))

  pub grow : (ℕ → A) → Queue A → Queue A
  unfolding copied
  grow junk q = record {
    cells = copied q junk q.count;
    cap = mul_size q.cap 2;
    head = 0;
    tail = q.count;
    count = q.count;
  }

  -- `_prot_queue_push_unsafe`
  pub push_unsafe : (ℕ → A) → Queue A → A → Queue A
  unfolding grow
  push_unsafe junk q x =
      let r = if eqb q.count q.cap then grow junk q else q in
      record r {
        cells = update r.cells r.tail x;
        tail = add_size r.tail 1 % r.cap;
        count = add_size r.count 1;
      }

  -- `prot_queue_push` has the same body between its lock and its unlock.
  pub push : (ℕ → A) → Queue A → A → Queue A
  unfolding grow
  push junk q x =
      let r = if eqb q.count q.cap then grow junk q else q in
      record r {
        cells = update r.cells r.tail x;
        tail = add_size r.tail 1 % r.cap;
        count = add_size r.count 1;
      }

  -- The element goes through `elem`, when that is not null; `none` is the status -1.
  pub pop : Queue A → Option A × Queue A
  pop q = if eqb q.count 0 then (none, q) else (
    some (q.cells q.head),
    record q { head = add_size q.head 1 % q.cap; count = q.count - 1 },
  )

  pub queue_len : Queue A → ℕ
  queue_len q = q.count

  pub peek : Queue A → Option A
  peek q = if eqb q.count 0 then none else some (q.cells q.head)

module _ {ℓ} {A : Type ℓ} ⦃e : MemEq A⦄ where
  -- The search loop of `prot_queue_upush` with `n` rounds left, at place `i`.
  holds_from : Queue A → A → ℕ → ℕ → Bool
  holds_from q x i zero = false
  holds_from q x i (suc n) =
      let rest = holds_from q x (i + 1) n in if x == q.cells (cell_at q i) then true else rest

  pub upush : (ℕ → A) → Queue A → A → Queue A
  unfolding holds_from push_unsafe
  upush junk q x = if holds_from q x 0 q.count then q else push_unsafe junk q x
