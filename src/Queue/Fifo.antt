-- ===== src/Queue/Fifo.antt =====
-- prot_queue.c against its abstract view: a first-in first-out list of any length.
use soter.Base.{
  ℕ, zero, suc, ◌+◌, ◌*◌, ◌^◌, ◌≤◌, ◌≡◌, refl, sym, ap, ◌∙◌, ap₂, ◌⊎◌, inl, inr, Bool, true, false,
  Option, none, some, List, [], ◌∷◌, ◌++◌, arith, eqb, length, MemEq, ◌==◌, Bool-cases,
  if◌then◌else◌, eqb→eq, not-eqb→ne,
}
use mathlib.Core.Option
use soter.Queue.{
  Queue, create, fresh, grow, push, push_unsafe, upush, holds_from, pop, queue_len, peek,
}
use soter.Queue.Ring.{
  IsValid, contents, gather, length-gather, cell_at-eq, grow-contents, put-contents, pop-contents,
}

-- The abstract queue.
abbrev pub mem {ℓ} : {A : Type ℓ} ⦃e : MemEq A⦄ → A → List A → Bool
mem x [] = false
mem x (y ∷ ys) = if x == y then true else mem x ys

-- A call and what it returns.
pub data Op {ℓ} (A : Type ℓ) : Type ℓ where
  enqueue : A → Op A
  enqueue_new : A → Op A
  dequeue : Op A
  look : Op A
  measure : Op A

pub data Reply {ℓ} (A : Type ℓ) : Type ℓ where
  pushed : Reply A
  element : Option A → Reply A
  size : ℕ → Reply A

module _ {ℓ} {A : Type ℓ} ⦃e : MemEq A⦄ where
  pub spec_step : Op A → List A → Reply A × List A
  spec_step (enqueue x) xs = (pushed, xs ++ (x ∷ []))
  spec_step (enqueue_new x) xs = (pushed, if mem x xs then xs else xs ++ (x ∷ []))
  spec_step dequeue [] = (element none, [])
  spec_step dequeue (x ∷ xs) = (element (some x), xs)
  spec_step look [] = (element none, [])
  spec_step look (x ∷ xs) = (element (some x), x ∷ xs)
  spec_step measure xs = (size (length xs), xs)

  pub step : (ℕ → A) → Op A → Queue A → Reply A × Queue A
  step junk (enqueue x) q = (pushed, push junk q x)
  step junk (enqueue_new x) q = (pushed, upush junk q x)
  step junk dequeue q = let (out, q') = pop q in (element out, q')
  step junk look q = (element (peek q), q)
  step junk measure q = (size (queue_len q), q)

  pub spec_run : List (Op A) → List A → List (Reply A)
  spec_run [] xs = []
  spec_run (op ∷ ops) xs = let (r, xs') = spec_step op xs in r ∷ spec_run ops xs'

  pub run : (ℕ → A) → List (Op A) → Queue A → List (Reply A)
  run junk [] q = []
  run junk (op ∷ ops) q = let (r, q') = step junk op q in r ∷ run junk ops q'

  push_unsafe-contents :
      (junk : ℕ → A) (q : Queue A) (x : A)
      → IsValid q
      → q.cap ≤ 2 ^ 61
      → IsValid (push_unsafe junk q x) × (contents (push_unsafe junk q x) ≡ contents q ++ (x ∷ []))
  unfolding push_unsafe
  push_unsafe-contents junk q x v few = elim (Bool-cases (eqb q.count q.cap)) [
    | inl full ↦
        let (valid, same, wide, counted) = grow-contents junk q v few (eqb→eq _ _ full) in
        let (after, added) =
          put-contents (grow junk q) x valid
            (omega (arith, wide, counted, eqb→eq _ _ full, v.head_in)) in
        rw full (after, added ∙ ap (λ t. t ++ (x ∷ [])) same)
    | inr free ↦ rw free (put-contents q x v (omega (arith, not-eqb→ne _ _ free, v.count_in)))
  ]

  push-unsafe : (junk : ℕ → A) (q : Queue A) (x : A) → push junk q x ≡ push_unsafe junk q x
  unfolding push push_unsafe
  push-unsafe junk q x = refl

  holds_from-mem :
      (q : Queue A) (x : A) (i n : ℕ)
      → IsValid q
      → i + n ≤ q.cap
      → holds_from q x i n ≡ mem x (gather q.cells q.cap q.head i n)
  unfolding holds_from gather
  holds_from-mem q x i zero v h = refl
  holds_from-mem q x i (suc n) v h =
      rw (cell_at-eq q i v (omega arith), holds_from-mem q x (i + 1) n v (omega arith))

  -- How large the ring can get by one call.
  record Grown (q q' : Queue A) : Type 0 where
    counted : q'.count ≤ q.count + 1
    wide : (q'.cap ≡ q.cap) ⊎ (q'.cap ≡ q.count * 2)

  push_unsafe-Grown :
      (junk : ℕ → A) (q : Queue A) (x : A)
      → IsValid q
      → q.cap ≤ 2 ^ 61
      → Grown q (push_unsafe junk q x)
  unfolding push_unsafe grow
  push_unsafe-Grown junk q x v few = elim (Bool-cases (eqb q.count q.cap)) [
    | inl full ↦
        rw full (record { counted = omega arith; wide = inr (omega (arith, eqb→eq _ _ full)) })
    | inr free ↦ rw free (record { counted = omega arith; wide = inl refl })
  ]

  -- One call answers as the list answers, and leaves the ring holding the list's new value.
  record Simulates (q : Queue A) (r : Reply A × Queue A) (s : Reply A × List A) : Type ℓ where
    answer : r.0 ≡ s.0
    holds : contents r.1 ≡ s.1
    valid : IsValid r.1
    grown : Grown q r.1

  unchanged : (q : Queue A) → Grown q q
  unchanged q = record { counted = omega arith; wide = inl refl }

  pop-Grown : (q : Queue A) → Grown q (pop q).1
  unfolding pop
  pop-Grown q = elim (Bool-cases (eqb q.count 0)) [
    | inl empty ↦ rw empty (unchanged q)
    | inr some_left ↦ rw some_left (record { counted = omega arith; wide = inl refl })
  ]

  contents-empty : (q : Queue A) → q.count ≡ 0 → contents q ≡ []
  unfolding gather
  contents-empty q e = rw e

  pop-empty : (q : Queue A) → q.count ≡ 0 → pop q ≡ (none, q)
  unfolding pop
  pop-empty q e = ground arith

  step-Simulates :
      (junk : ℕ → A) (op : Op A) (q : Queue A)
      → IsValid q
      → q.cap ≤ 2 ^ 61
      → Simulates q (step junk op q) (spec_step op (contents q))
  unfolding step spec_step upush peek queue_len
  step-Simulates junk (enqueue x) q v few =
      let (valid, same) = push_unsafe-contents junk q x v few in
      rw (push-unsafe junk q x) (record {
        answer = refl;
        holds = same;
        valid = valid;
        grown = push_unsafe-Grown junk q x v few;
      })
  step-Simulates junk (enqueue_new x) q v few =
      let (valid, same) = push_unsafe-contents junk q x v few in
      rw (upush, holds_from-mem q x 0 q.count v (omega (arith, v.count_in)))
        (elim (Bool-cases (mem x (contents q))) [
          | inl old ↦
              rw old (record { answer = refl; holds = refl; valid = v; grown = unchanged q })
          | inr new ↦ rw new (record {
            answer = refl;
            holds = same;
            valid = valid;
            grown = push_unsafe-Grown junk q x v few;
          })
        ])
  step-Simulates junk dequeue q v few = elim (Bool-cases (eqb q.count 0)) [
    | inl empty ↦
        rw (contents-empty q (eqb→eq _ _ empty), pop-empty q (eqb→eq _ _ empty))
          (record {
            answer = refl;
            holds = contents-empty q (eqb→eq _ _ empty);
            valid = v;
            grown = unchanged q;
          })
    | inr left ↦
        let (out, same, valid) = pop-contents q v (omega (arith, not-eqb→ne _ _ left)) in
        rw same
          (record { answer = ap element out; holds = refl; valid = valid; grown = pop-Grown q })
  ]
  step-Simulates junk look q v few = elim (Bool-cases (eqb q.count 0)) [
    | inl empty ↦
        rw (contents-empty q (eqb→eq _ _ empty), peek, empty)
          (record {
            answer = refl;
            holds = contents-empty q (eqb→eq _ _ empty);
            valid = v;
            grown = unchanged q;
          })
    | inr left ↦
        let (out, same, valid) = pop-contents q v (omega (arith, not-eqb→ne _ _ left)) in
        rw (same, peek, left)
          (record { answer = refl; holds = same; valid = v; grown = unchanged q })
  ]
  step-Simulates junk measure q v few = record {
    answer = ap size (sym (length-gather q.cells q.cap q.head 0 q.count));
    holds = refl;
    valid = v;
    grown = unchanged q;
  }

  -- No sequence of calls of `prot_queue_push`, `prot_queue_upush`, `prot_queue_pop`,
  -- `prot_queue_peek` and `prot_queue_len` tells a valid queue from the list of its elements, which
  -- grows at one end and is read at the other, as long as the queue starts with at most 2^61 cells
  -- and its elements and the calls number at most 2^60.
  pub run-refines :
      (junk : ℕ → A) (ops : List (Op A)) (q : Queue A)
      → IsValid q
      → q.cap ≤ 2 ^ 61
      → q.count + length ops ≤ 2 ^ 60
      → run junk ops q ≡ spec_run ops (contents q)
  unfolding run spec_run
  run-refines junk [] q v few bound = refl
  run-refines junk (op ∷ ops) q v few bound =
      let s = step-Simulates junk op q v few in
      ap₂ ◌∷◌ s.answer (
        run-refines junk ops (step junk op q).1 s.valid (omega (arith, s.grown))
          (omega (arith, s.grown))
        ∙ ap (spec_run ops) s.holds)

  fresh-IsValid : (zeroed : A) → IsValid (fresh zeroed)
  unfolding fresh
  fresh-IsValid zeroed = record {
    small = omega arith;
    head_in = omega arith;
    count_in = omega arith;
    tail_at = omega arith;
  }

  -- The queue that `prot_queue_create` makes, when `calloc` gives the block, answers at most 2^60
  -- calls as an empty list would.
  pub create-refines :
      (zeroed : A) (junk : ℕ → A) (ops : List (Op A))
      → length ops ≤ 2 ^ 60
      → Option.map (run junk ops) (create true zeroed) ≡ some (spec_run ops [])
  unfolding create fresh gather
  create-refines zeroed junk ops bound = ap some (
      run-refines junk ops (fresh zeroed) (fresh-IsValid zeroed) (omega arith)
        (omega (arith, bound)))
