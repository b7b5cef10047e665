-- ===== src/Natpunch/Nat.antt =====
-- code/devcore/natpunch/src/nat.c: which kind of NAT a node is behind, by two STUN servers.
use native.Mathlib.Nat.{div-eq_of_lt}
use soter.Base.{
  ℕ, zero, suc, ◌+◌, ◌*◌, ◌/◌, ◌<◌, ◌≡◌, refl, ap, ◌∙◌, Bool, true, false, not, Option, none, some,
  List, [], ◌∷◌, ◌++◌, arith, ltb, leb, eqb, if◌then◌else◌, length, take, drop, get_elem?,
  Bool-cases, Option-cases, inl, inr, le→not-ltb,
}

-- `nat_type`
pub data NatType : Type 0 where
  nat_dynamic nat_static nat_symmetric nat_error : NatType

-- The status and, where it is 0, the type; the numbers are those of the code.
pub data Got : Type 0 where
  bind_failed first_failed second_failed : Got
  typed : NatType → Got

-- The socket: whether it is open, and how often it has asked.
pub record Socket : Type 0 where
  pub opened : Bool
  pub asked : ℕ

-- The world: whether the `n`th bind succeeds on an open socket, and the port that the server
-- tells at the `n`th request, where it answers.
pub record World (Addr : Type 0) : Type 0 where
  pub binds : ℕ → ℕ → Bool
  pub port_from : ℕ → Addr → Option ℕ

unfoldable pub type_of : ℕ → ℕ → ℕ → NatType
type_of first second port =
    if eqb first second then (if eqb first port then nat_static else nat_dynamic) else nat_symmetric

module _ {Addr : Type 0} (world : World Addr) where
  -- `bind` fails on a socket that is closed; a server that does not answer has it closed.
  unfoldable pub get_type : Socket → Addr → Addr → ℕ → Got × Socket
  unfolding type_of
  get_type s first_stun second_stun port =
      if not s.opened
      then (bind_failed, s)
      else if not (world.binds s.asked port)
      then (bind_failed, s)
      else elim (world.port_from s.asked first_stun) [
        | none ↦ (first_failed, record { opened = false; asked = s.asked + 1 })
        | some a ↦ elim (world.port_from (s.asked + 1) second_stun) [
          | none ↦ (second_failed, record { opened = false; asked = s.asked + 2 })
          | some b ↦ (typed (type_of a b port), record s { asked = s.asked + 2 })
        ]
      ]

-- The next index, which is not that of the other server.
abbrev pub next_index : ℕ → ℕ → ℕ
next_index i other = if eqb (i + 1) other then i + 2 else i + 1

-- What follows a pair that was tried, of `len` servers: the next indices, and the loop with each.
unfoldable pub settle : ℕ → Got → ℕ → ℕ → Option NatType → Option NatType → Option NatType
settle len (typed t) first_next second_next on_first on_second = some t
settle len bind_failed first_next second_next on_first on_second = some nat_error
settle len first_failed first_next second_next on_first on_second =
    if leb len first_next then some nat_error else on_first
settle len second_failed first_next second_next on_first on_second =
    if leb len second_next then some nat_error else on_second

module _ {Addr : Type 0} (world : World Addr) where
  -- The loop over pairs of servers for so many rounds, `port` being the random port of each; `none`
  -- is a loop that is not over.
  unfoldable pub choose : ℕ → (ℕ → ℕ) → Socket → List Addr → ℕ → ℕ → Option NatType
  unfolding get_type settle
  choose zero port s q first_i second_i = none
  choose (suc n) port s q first_i second_i = elim (get_elem? q first_i) [
    | none ↦ some nat_error
    | some stun1 ↦ elim (get_elem? q second_i) [
      | none ↦ some nat_error
      | some stun2 ↦
          let r = get_type world s stun1 stun2 (port n) in
          let first_next = next_index first_i second_i in
          let second_next = next_index second_i first_i in
          settle (length q) r.0 first_next second_next (choose n port r.1 q first_next second_i)
            (choose n port r.1 q first_i second_next)
    ]
  ]

-- `STUN_PARALLEL_RESOLUTION_LIMIT`
abbrev pub resolution_limit : ℕ
resolution_limit = 10

abbrev pub parallel : ℕ → ℕ
parallel stuns_n = if ltb stuns_n resolution_limit then stuns_n else resolution_limit

module _ {Name Addr : Type 0} (uni : Name → Option Addr) where
  -- One thread: the addresses of its names that can be resolved.
  unfoldable pub resolution : List Name → List Addr
  resolution [] = []
  resolution (name ∷ names) =
      let rest = resolution names in elim (uni name) [ none ↦ rest | some a ↦ a ∷ rest ]

  -- All threads from the `i`th on, one after the other.
  unfoldable pub resolutions : List Name → ℕ → ℕ → ℕ → List Addr
  unfolding resolution
  resolutions stuns share i zero = []
  resolutions stuns share i (suc n) =
      resolution (take share (drop (i * share) stuns)) ++ resolutions stuns share (i + 1) n

  -- What the threads resolve, in an order `mixed` of theirs, and the loop over it.
  pub parallel_req : World Addr → (List Addr → List Addr) → (ℕ → ℕ) → List Name → Option NatType
  unfolding resolutions choose
  parallel_req world mixed port stuns =
      let n = parallel (length stuns) in
      let q = mixed (resolutions stuns (n / length stuns) 0 n) in
      if ltb (length q) 2
      then some nat_error
      else choose world (length q + length q) port (record { opened = true; asked = 0 }) q 0 1

  resolutions-none : (stuns : List Name) (i n : ℕ) → resolutions stuns 0 i n ≡ []
  unfolding resolutions resolution
  resolutions-none stuns i zero = refl
  resolutions-none stuns i (suc n) = resolutions-none stuns (i + 1) n

  -- With more than ten servers each thread has none of them to resolve, since the number of threads is
  -- divided by that of the servers, and the type of the NAT is always an error.
  pub parallel_req-many :
      (world : World Addr) (mixed : List Addr → List Addr) (port : ℕ → ℕ) (stuns : List Name)
      → ((q : List Addr) → length (mixed q) ≡ length q)
      → resolution_limit < length stuns
      → parallel_req world mixed port stuns ≡ some nat_error
  unfolding parallel_req
  parallel_req-many world mixed port stuns keeps many =
      let n : ℕ = parallel (length stuns) in
      let ten : n ≡ 10 =
        rw (le→not-ltb (length stuns) resolution_limit (omega (arith, many))) refl in
      let share : n / length stuns ≡ 0 = div-eq_of_lt (omega (arith, ten, many)) in
      let empty : length (mixed (resolutions stuns (n / length stuns) 0 n)) ≡ 0 =
        keeps (resolutions stuns (n / length stuns) 0 n)
        ∙ ap (λ k. length (resolutions stuns k 0 n)) share
        ∙ ap length (resolutions-none stuns 0 n) in
      rw (parallel_req, empty) refl

module _ {Addr : Type 0} (world : World Addr) where
  closed_choose :
      (n : ℕ) (port : ℕ → ℕ) (asked : ℕ) (q : List Addr) (i j : ℕ)
      → choose world (suc n) port (record { opened = false; asked = asked }) q i j ≡ some nat_error
  unfolding choose get_type settle
  closed_choose n port asked q i j = elim (Option-cases (get_elem? q i)) [
    | inl e ↦ rw (choose, e) refl
    | inr (a, e) ↦ elim (Option-cases (get_elem? q j)) [
      | inl f ↦ rw (choose, e, f) refl
      | inr (b, f) ↦ rw (choose, e, f, get_type) refl
    ]
  ]

  -- What the loop does with a pair, once its outcome is known.
  tried :
      (n : ℕ) (port : ℕ → ℕ) (s : Socket) (q : List Addr) (i j : ℕ) (a b : Addr) (r : Got × Socket)
      → get_elem? q i ≡ some a
      → get_elem? q j ≡ some b
      → get_type world s a b (port n) ≡ r
      → choose world (suc n) port s q i j
        ≡ settle
            (length q)
            r.0
            (next_index i j)
            (next_index j i)
            (choose world n port r.1 q (next_index i j) j)
            (choose world n port r.1 q i (next_index j i))
  unfolding choose
  tried n port s q i j a b r first second outcome =
      rw (choose, first, second)
        (ap
          (λ r.
            settle (length q) r.0 (next_index i j) (next_index j i)
              (choose world n port r.1 q (next_index i j) j)
              (choose world n port r.1 q i (next_index j i)))
          outcome)

  settled_first :
      (len i j : ℕ) (on_first on_second : Option NatType)
      → on_first ≡ some nat_error
      → settle len first_failed i j on_first on_second ≡ some nat_error
  unfolding settle
  settled_first len i j on_first on_second e = elim (Bool-cases (leb len i)) [
    | inl over ↦ rw (over) refl
    | inr on ↦ rw (on) e
  ]

  -- When the first server does not answer, the socket is closed and no other can be tried: however
  -- many servers there are, the type of the NAT is an error.
  pub choose-silent :
      (n : ℕ) (port : ℕ → ℕ) (asked : ℕ) (first second : Addr) (q : List Addr)
      → world.port_from asked first ≡ none
      → choose world
          (suc (suc n))
          port
          (record { opened = true; asked = asked })
          (first ∷ second ∷ q)
          0
          1
        ≡ some nat_error
  unfolding get_type settle
  choose-silent n port asked first second q silent =
      let s : Socket = record { opened = true; asked = asked } in
      let all : List Addr = first ∷ second ∷ q in
      elim (Bool-cases (world.binds asked (port (suc n)))) [
        | inr unbound ↦
            tried (suc n) port s all 0 1 first second (bind_failed, s) refl refl
              (rw (get_type, unbound) refl)
        | inl bound ↦
            tried (suc n) port s all 0 1 first second
              (first_failed, record { opened = false; asked = asked + 1 }) refl refl
              (rw (get_type, bound, silent) refl)
            ∙ settled_first (length all) (next_index 0 1) (next_index 1 0)
                (choose world (suc n) port (record { opened = false; asked = asked + 1 }) all
                  (next_index 0 1) 1)
                (choose world (suc n) port (record { opened = false; asked = asked + 1 }) all 0
                  (next_index 1 0))
                (closed_choose n port (asked + 1) all (next_index 0 1) 1)
      ]
