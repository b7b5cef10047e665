-- ===== src/Rudp/Reorder/Complete.antt =====
-- connection.c: reordering drops nothing that it accepted, and leaves no packet waiting that is due.
use soter.Base.{
  ℕ, suc, ◌+◌, ◌≤◌, ◌<◌, ◌≡◌, refl, ap, ◌∙◌, inl, inr, Bool, true, false, ◌||◌, ◌&&◌, List, [], ◌∷◌,
  ◌++◌, arith, eqb, ltb, if◌then◌else◌, Bool-cases, insert_at, u32_mod, not-eqb→ne, ltb→lt,
  not-ltb→le, leb→le, All,
}
use soter.Proto.{Pack}
use soter.Rudp.{Conn, reorder_window}
use soter.Rudp.Reorder.{next_of, place_from, in_window, stash, drain, flush, reordering}

-- Whether a packet with the number is in the list.
pub has : ℕ → List Pack → Bool
has s [] = false
has s (p ∷ ps) = if eqb p.seq s then true else has s ps

-- Insertion into an ascending buffer, where the packet is not there yet.
unfoldable pub put_in : Pack → List Pack → List Pack
put_in pkt [] = pkt ∷ []
put_in pkt (x ∷ xs) =
    if eqb x.seq pkt.seq
    then x ∷ xs
    else if ltb pkt.seq x.seq
    then pkt ∷ x ∷ xs
    else x ∷ put_in pkt xs

placed : List Pack → Pack → ℕ × Bool → List Pack
placed buf pkt r = if r.1 then buf else insert_at r.0 pkt buf

place_from-suc :
    (pos : ℕ) (buf : List Pack) (seq : ℕ)
    → ((place_from (pos + 1) buf seq).0 ≡ suc (place_from pos buf seq).0)
      × ((place_from (pos + 1) buf seq).1 ≡ (place_from pos buf seq).1)
unfolding place_from
place_from-suc pos [] seq = ground arith
place_from-suc pos (x ∷ xs) seq = ground (arith, place_from-suc (pos + 1) xs seq)

placed_cons :
    (x : Pack) (xs : List Pack) (pkt : Pack) (r r' : ℕ × Bool)
    → r'.0 ≡ suc r.0
    → r'.1 ≡ r.1
    → placed (x ∷ xs) pkt r' ≡ x ∷ placed xs pkt r
unfolding placed
placed_cons x xs pkt (n, true) r' e f = rw f
placed_cons x xs pkt (n, false) r' e f = rw (f, e)

-- The scan and the insertion at its place are `put_in`.
placed-put_in :
    (buf : List Pack) (pkt : Pack) → placed buf pkt (place_from 0 buf pkt.seq) ≡ put_in pkt buf
unfolding place_from placed put_in
placed-put_in [] pkt = refl
placed-put_in (x ∷ xs) pkt = elim (Bool-cases (eqb x.seq pkt.seq)) [
  | inl same ↦ simp same
  | inr other ↦ elim (Bool-cases (ltb pkt.seq x.seq)) [
    | inl before ↦ simp (other, before)
    | inr after ↦
        let (one_more, alike) = place_from-suc 0 xs pkt.seq in
        simp (other, after)
          (placed_cons x xs pkt (place_from 0 xs pkt.seq) (place_from 1 xs pkt.seq) one_more alike
            ∙ ap (λ t. x ∷ t) (placed-put_in xs pkt))
  ]
]

pub stash-put_in :
    (last : ℕ) (buf : List Pack) (pkt : Pack)
    → stash last buf pkt ≡ (if in_window (next_of last) pkt.seq then put_in pkt buf else buf)
unfolding stash placed
stash-put_in last buf pkt = elim (Bool-cases (in_window (next_of last) pkt.seq)) [
  | inl near ↦ rw near (placed-put_in buf pkt)
  | inr far ↦ rw far
]

has-put_in :
    (s : ℕ) (pkt : Pack) (buf : List Pack) → has s (put_in pkt buf) ≡ (eqb pkt.seq s || has s buf)
unfolding has put_in
has-put_in s pkt [] = ground arith
has-put_in s pkt (x ∷ xs) = ground (arith, has-put_in s pkt xs)

-- The number is that of an arrived packet inside the window.
pub accepted : ℕ → ℕ → List Pack → Bool
accepted last s [] = false
accepted last s (p ∷ ps) = (in_window (next_of last) p.seq && eqb p.seq s) || accepted last s ps

has-drain :
    (last s : ℕ) (buf ps : List Pack)
    → has s (drain last buf ps) ≡ (has s buf || accepted last s ps)
unfolding drain accepted
has-drain last s buf [] = ground arith
has-drain last s buf (p ∷ ps) =
    has-drain last s (stash last buf p) ps
    ∙ ap (λ b. has s b || accepted last s ps) (stash-put_in last buf p)
    ∙ after (in_window (next_of last) p.seq)
  where
    after :
        (near : Bool)
        → (has s (if near then put_in p buf else buf) || accepted last s ps)
          ≡ (has s buf || ((near && eqb p.seq s) || accepted last s ps))
    after true = ground (arith, has-put_in s p buf)
    after false = ground arith

has-flush :
    (last s : ℕ) (buf : List Pack)
    → (has s (flush last buf).passed || has s (flush last buf).buf) ≡ has s buf
unfolding flush has
has-flush last s [] = refl
has-flush last s (p ∷ ps) = elim (Bool-cases (eqb p.seq (next_of last))) [
  | inl due ↦ simp due (ground (arith, has-flush p.seq s ps))
  | inr gap ↦ simp gap
]

-- A reordering loses no packet that lies inside the window: a number that was in the buffer or came
-- with such a packet is afterwards either passed on or in the buffer, and no other number is.
pub reordering_keeps :
    (c : Conn) (s : ℕ)
    → let f = flush c.last_recved_seq (drain c.last_recved_seq c.reorder_buf c.net) in
      ((reordering c).reordered ≡ c.reordered ++ f.passed)
      × ((has s f.passed || has s (reordering c).reorder_buf)
          ≡ (has s c.reorder_buf || accepted c.last_recved_seq s c.net))
unfolding reordering
reordering_keeps c s = (
  refl,
  has-flush c.last_recved_seq s (drain c.last_recved_seq c.reorder_buf c.net)
      ∙ has-drain c.last_recved_seq s c.reorder_buf c.net,
)

-- Ascending, without repeats, from `m` on.
abbrev pub Ascending : ℕ → List Pack → Type 0
Ascending m [] = Unit
Ascending m (p ∷ ps) = (m ≤ p.seq) × Ascending (suc p.seq) ps

Ascending-put_in :
    (m : ℕ) (pkt : Pack) (buf : List Pack)
    → m ≤ pkt.seq
    → Ascending m buf
    → Ascending m (put_in pkt buf)
unfolding put_in
Ascending-put_in m pkt [] h a = (h, tt)
Ascending-put_in m pkt (x ∷ xs) h a = elim (Bool-cases (eqb x.seq pkt.seq)) [
  | inl same ↦ simp same a
  | inr other ↦ elim (Bool-cases (ltb pkt.seq x.seq)) [
    | inl before ↦ simp (other, before) (h, (omega (arith, ltb→lt _ _ before), a.1))
    | inr after ↦
        simp (other, after)
          (
            a.0,
            Ascending-put_in (suc x.seq) pkt xs
                (omega (arith, not-eqb→ne _ _ other, not-ltb→le _ _ after)) a.1,
          )
  ]
]

-- Inside the window, and with no wrap ahead, an accepted number is at least the one due.
in_window-le :
    (expected seq : ℕ)
    → seq < u32_mod
    → expected + reorder_window < u32_mod
    → in_window expected seq ≡ true
    → expected ≤ seq
unfolding in_window
in_window-le expected seq small ahead near = omega (arith, leb→le _ _ near)

abbrev pub SmallSeqs : List Pack → Type 0
SmallSeqs ps = All (λ p. p.seq < u32_mod) ps

Ascending-drain :
    (last : ℕ) (buf ps : List Pack)
    → next_of last + reorder_window < u32_mod
    → SmallSeqs ps
    → Ascending (next_of last) buf
    → Ascending (next_of last) (drain last buf ps)
unfolding drain
Ascending-drain last buf [] ahead small a = a
Ascending-drain last buf (p ∷ ps) ahead small a =
    Ascending-drain last (stash last buf p) ps ahead small.1
      (rw (stash-put_in last buf p) (one (in_window (next_of last) p.seq) refl))
  where
    one :
        (near : Bool)
        → in_window (next_of last) p.seq ≡ near
        → Ascending (next_of last) (if near then put_in p buf else buf)
    one true e = Ascending-put_in _ p buf (in_window-le _ _ small.0 ahead e) a
    one false e = a

has-Ascending : (m s : ℕ) (buf : List Pack) → Ascending m buf → s < m → has s buf ≡ false
unfolding has
has-Ascending m s [] a h = refl
has-Ascending m s (p ∷ ps) a h =
    ground (arith, a.0, has-Ascending (suc p.seq) s ps a.1 (omega (arith, a.0)))

Ascending-mono : (m n : ℕ) (buf : List Pack) → m ≤ n → Ascending n buf → Ascending m buf
Ascending-mono m n [] h a = tt
Ascending-mono m n (p ∷ ps) h a = (omega (arith, h, a.0), a.1)

next_of-le : (seq : ℕ) → next_of seq ≤ suc seq
unfolding next_of
next_of-le seq = ground arith

-- What the second loop leaves is above the number then due.
Ascending-flush :
    (last : ℕ) (buf : List Pack)
    → Ascending (next_of last) buf
    → let f = flush last buf in Ascending (suc (next_of f.last)) f.buf
unfolding flush
Ascending-flush last [] a = tt
Ascending-flush last (p ∷ ps) a = elim (Bool-cases (eqb p.seq (next_of last))) [
  | inl due ↦
      simp due (Ascending-flush p.seq ps (Ascending-mono _ (suc p.seq) ps (next_of-le p.seq) a.1))
  | inr gap ↦ simp gap (omega (arith, a.0, not-eqb→ne _ _ gap), a.1)
]

-- As long as the numbers do not wrap inside the window, an ascending buffer stays ascending, and
-- after a reordering the number then due is not in it: no packet waits that could be passed on.
pub reordering_complete :
    (c : Conn)
    → next_of c.last_recved_seq + reorder_window < u32_mod
    → SmallSeqs c.net
    → Ascending (next_of c.last_recved_seq) c.reorder_buf
    → let c' = reordering c in
      Ascending (next_of c'.last_recved_seq) c'.reorder_buf
      × (has (next_of c'.last_recved_seq) c'.reorder_buf ≡ false)
unfolding reordering
reordering_complete c ahead small a =
    let f = flush c.last_recved_seq (drain c.last_recved_seq c.reorder_buf c.net) in
    let above =
      Ascending-flush c.last_recved_seq _
        (Ascending-drain c.last_recved_seq c.reorder_buf c.net ahead small a) in
    (
      Ascending-mono _ (suc (next_of f.last)) f.buf (omega arith) above,
      has-Ascending (suc (next_of f.last)) (next_of f.last) f.buf above (omega arith),
    )
