-- ===== src/Queue/Ring.antt =====
-- prot_queue.c: the list of elements that the ring of cells holds, and the representation invariant.
use native.Mathlib.Nat.{mod-eq_of_lt, mod-add-mod, mod-lt, mod-eq-sub-mod}
use soter.Base.{
  ℕ, zero, suc, ◌+◌, ◌-◌, ◌*◌, ◌%◌, ◌^◌, ◌≤◌, ◌<◌, ◌≡◌, refl, sym, ap, ap₂, ◌∙◌, ◌≢◌, ◌⊎◌, inl, inr,
  false, some, List, [], ◌∷◌, ◌++◌, arith, eqb, ltb, length, add_size, mul_size, Bool-cases, eqb→eq,
  not-eqb→ne, not-ltb→le, ltb→lt,
}
use soter.Queue.{Queue, update, cell_at, copied, grow, pop}

module _ {ℓ} {A : Type ℓ} (cells : ℕ → A) (cap head : ℕ) where
  -- The elements from place `i` behind the head on, `n` of them.
  unfoldable pub gather : ℕ → ℕ → List A
  gather i zero = []
  gather i (suc n) = cells ((head + i) % cap) ∷ gather (i + 1) n

  pub length-gather : (i n : ℕ) → length (gather i n) ≡ n
  unfolding gather
  length-gather i zero = refl
  length-gather i (suc n) = ap suc (length-gather (i + 1) n)

  pub gather_snoc :
      (i n : ℕ) → gather i (suc n) ≡ gather i n ++ (cells ((head + (i + n)) % cap) ∷ [])
  unfolding gather
  gather_snoc i zero = ap (λ k. cells ((head + k) % cap) ∷ []) (omega arith)
  gather_snoc i (suc n) =
      ap (λ t. cells ((head + i) % cap) ∷ t)
        (gather_snoc (i + 1) n
          ∙ ap (λ k. gather (i + 1) n ++ (cells ((head + k) % cap) ∷ [])) (omega arith))

-- Two rings that agree at their places hold the same elements.
pub gather_ext {ℓ} :
    {A : Type ℓ} (c d : ℕ → A) (m k h g i j n : ℕ)
    → ((p : ℕ) → p < n → c ((h + (i + p)) % m) ≡ d ((g + (j + p)) % k))
    → gather c m h i n ≡ gather d k g j n
unfolding gather
gather_ext c d m k h g i j zero same = refl
gather_ext c d m k h g i j (suc n) same =
    ap₂ ◌∷◌
      (ap (λ t. c ((h + t) % m)) (omega arith)
        ∙ same 0 (omega arith)
        ∙ ap (λ t. d ((g + t) % k)) (omega arith))
      (gather_ext c d m k h g (i + 1) (j + 1) n λ p below.
        ap (λ t. c ((h + t) % m)) (omega arith)
        ∙ same (p + 1) (omega arith)
        ∙ ap (λ t. d ((g + t) % k)) (omega arith))

-- Going round at most once.
mod_cases :
    (m h a : ℕ)
    → h < m
    → a < m
    → ((h + a < m) × ((h + a) % m ≡ h + a)) ⊎ ((m ≤ h + a) × ((h + a) % m + m ≡ h + a))
mod_cases m h a hh ha = elim (Bool-cases (ltb (h + a) m)) [
  | inl below ↦ inl (ltb→lt _ _ below, mod-eq_of_lt (ltb→lt _ _ below))
  | inr above ↦ inr (
    not-ltb→le _ _ above,
    omega (
      arith,
      not-ltb→le _ _ above,
      mod-eq-sub-mod {n = h + a} {m = m} (not-ltb→le _ _ above),
      mod-eq_of_lt {n = h + a - m} {m = m} (omega (arith, not-ltb→le _ _ above)),
    ),
  )
]

-- Two places less than `m` apart have different cells.
pub round_ne : (m h a b : ℕ) → h < m → a < b → b < m → (h + a) % m ≢ (h + b) % m
round_ne m h a b hh ab bm = omega (arith, mod_cases m h a hh (omega arith), mod_cases m h b hh bm)

-- `k` is a wrapped index; one more step from it, or `p`, wraps as from the unwrapped one.
mod_shift : (m a k p : ℕ) → k ≡ a % m → (k + p) % m ≡ (a + p) % m
mod_shift m a k p e = rw e (mod-add-mod a m p)

mod_cong : (m : ℕ) {a b : ℕ} → a ≡ b → a % m ≡ b % m
mod_cong m e = ap (λ k. k % m) e

update_self {ℓ} : {A : Type ℓ} (cells : ℕ → A) {i j : ℕ} (x : A) → i ≡ j → update cells i x j ≡ x
update_self cells x same = ground (arith, same)

pub record IsValid {ℓ} {A : Type ℓ} (q : Queue A) : Type 0 where
  pub small : q.cap ≤ 2 ^ 62
  pub head_in : q.head < q.cap
  pub count_in : q.count ≤ q.cap
  pub tail_at : q.tail ≡ (q.head + q.count) % q.cap

module _ {ℓ} {A : Type ℓ} where
  abbrev pub contents : Queue A → List A
  contents q = gather q.cells q.cap q.head 0 q.count

  pub cell_at-eq :
      (q : Queue A) (i : ℕ) → IsValid q → i < q.cap → cell_at q i ≡ (q.head + i) % q.cap
  cell_at-eq q i v h = ap (λ k. k % q.cap) (mod-eq_of_lt (omega (arith, v.small, v.head_in)))

  -- Every cell index that an operation reads or writes lies inside the block.
  pub in_bounds :
      (q : Queue A) (i : ℕ)
      → IsValid q
      → (q.head < q.cap) × (q.tail < q.cap) × (cell_at q i < q.cap)
  in_bounds q i v = (
    v.head_in,
    rw v.tail_at (mod-lt (q.head + q.count) (omega (arith, v.head_in))),
    mod-lt (add_size q.head i) (omega (arith, v.head_in)),
  )

  copied_lem :
      (q : Queue A) (junk : ℕ → A) (n j : ℕ) → j < n → copied q junk n j ≡ q.cells (cell_at q j)
  unfolding copied
  copied_lem q junk zero j h = elim h [ ]
  copied_lem q junk (suc n) j h = elim (Bool-cases (eqb n j)) [
    | inl same ↦ rw (same, eqb→eq n j same)
    | inr other ↦ rw other (copied_lem q junk n j (omega (arith, not-eqb→ne n j other)))
  ]

  -- Growing keeps the elements, in order, and leaves room.
  pub grow-contents :
      (junk : ℕ → A) (q : Queue A)
      → IsValid q
      → q.cap ≤ 2 ^ 61
      → q.count ≡ q.cap
      → IsValid (grow junk q)
        × (contents (grow junk q) ≡ contents q)
        × ((grow junk q).cap ≡ q.cap * 2)
        × ((grow junk q).count ≡ q.count)
  unfolding grow
  grow-contents junk q v few full =
      let double : mul_size q.cap 2 ≡ q.cap * 2 = omega arith in
      (
        record {
          small = omega arith;
          head_in = omega (arith, v.head_in);
          count_in = omega (arith, v.head_in);
          tail_at = sym (
              mod-eq_of_lt {n = 0 + q.count} {m = mul_size q.cap 2}
                (omega (arith, double, v.head_in))
              ∙ omega arith);
        },
        gather_ext _ _ _ _ _ _ 0 0 q.count (λ p h.
            ap (copied q junk q.count) (
              mod-eq_of_lt {n = 0 + (0 + p)} {m = mul_size q.cap 2} (omega (arith, double))
              ∙ omega arith)
            ∙ copied_lem q junk q.count p h
            ∙ ap q.cells
                (cell_at-eq q p v (omega arith) ∙ ap (λ k. (q.head + k) % q.cap) (omega arith))),
        double,
        refl,
      )

  -- One more element written at the tail of a ring with room.
  abbrev pub put : Queue A → A → Queue A
  put r x = record r {
    cells = update r.cells r.tail x;
    tail = add_size r.tail 1 % r.cap;
    count = add_size r.count 1;
  }

  pub put-contents :
      (r : Queue A) (x : A)
      → IsValid r
      → r.count < r.cap
      → IsValid (put r x) × (contents (put r x) ≡ contents r ++ (x ∷ []))
  put-contents r x v room =
      let tail_in : r.tail < r.cap = (in_bounds r 0 v).1 in
      let next : add_size r.count 1 ≡ suc r.count = omega (arith, v.small) in
      let step : add_size r.tail 1 ≡ r.tail + 1 = omega (arith, v.small) in
      (
        record {
          small = v.small;
          head_in = v.head_in;
          count_in = omega (arith, next);
          tail_at =
              mod_cong r.cap step
              ∙ mod_shift r.cap (r.head + r.count) r.tail 1 v.tail_at
              ∙ mod_cong r.cap {a = r.head + r.count + 1} {b = r.head + add_size r.count 1}
                  (omega (arith, next));
        },
        ap (λ n. gather (update r.cells r.tail x) r.cap r.head 0 n) next
            ∙ gather_snoc (update r.cells r.tail x) r.cap r.head 0 r.count
            ∙ ap₂ (λ t u. t ++ (u ∷ [])) (gather_ext _ _ _ _ _ _ 0 0 r.count (λ p h. untouched p h))
                (update_self r.cells x (v.tail_at ∙ ap (λ k. (r.head + k) % r.cap) (omega arith))),
      )
    where
      untouched :
          (p : ℕ)
          → p < r.count
          → update r.cells r.tail x ((r.head + (0 + p)) % r.cap)
            ≡ r.cells ((r.head + (0 + p)) % r.cap)
      untouched p h =
          let away = round_ne r.cap r.head (0 + p) r.count v.head_in (omega arith) room in
          ground (arith, away, v.tail_at)

  pub pop-contents :
      (q : Queue A)
      → IsValid q
      → 0 < q.count
      → let (out, q') = pop q in
        (out ≡ some (q.cells q.head)) × (contents q ≡ q.cells q.head ∷ contents q') × IsValid q'
  unfolding pop gather
  pop-contents q v some_left =
      let step : add_size q.head 1 ≡ q.head + 1 = omega (arith, v.small, v.head_in) in
      let filled : eqb q.count 0 ≡ false = ground (arith, some_left) in
      let pred : q.count ≡ suc (q.count - 1) = omega (arith, some_left) in
      (
        rw filled,
        rw (filled, pop)
            (ap (gather q.cells q.cap q.head 0) pred
              ∙ ap₂ (λ t u. q.cells t ∷ u)
                  (mod-eq_of_lt {n = q.head + 0} {m = q.cap} (omega (arith, v.head_in))
                    ∙ omega arith)
                  (gather_ext q.cells q.cells q.cap q.cap q.head (add_size q.head 1 % q.cap) 1 0
                    (q.count - 1)
                    (λ p h. ap q.cells (
                      mod_cong q.cap {a = q.head + (1 + p)} {b = q.head + 1 + (0 + p)} (omega arith)
                      ∙ sym (mod_shift q.cap (q.head + 1) _ (0 + p) (mod_cong q.cap step)))))),
        rw filled (record {
          small = v.small;
          head_in = mod-lt (add_size q.head 1) (omega (arith, v.head_in));
          count_in = omega (arith, v.count_in);
          tail_at =
              v.tail_at
              ∙ mod_cong q.cap {a = q.head + q.count} {b = q.head + 1 + (q.count - 1)}
                  (omega (arith, some_left))
              ∙ sym (mod_shift q.cap (q.head + 1) _ (q.count - 1) (mod_cong q.cap step));
        }),
      )
