-- ===== src/Rudp/Reorder.antt =====
-- `_rudp_conn_reordering` of connection.c: packets from the net are put in order and passed on.
pub mod InOrder
pub mod Complete
pub mod Stall
use soter.Base.{
  ℕ, ◌+◌, Bool, true, false, List, [], ◌∷◌, ◌++◌, leb, ltb, eqb, if◌then◌else◌, insert_at, u32_max,
  sub32,
}
use soter.Proto.{Pack}
use soter.Rudp.{Conn, reorder_window}

-- The sequence number that is due after the last one passed on.
unfoldable pub next_of : ℕ → ℕ
next_of last = if eqb last u32_max then 0 else last + 1

-- The scan of the buffer from `pos` on: where the packet belongs, and whether it is there already.
place_from : ℕ → List Pack → ℕ → ℕ × Bool
place_from pos [] seq = (pos, false)
place_from pos (x ∷ xs) seq =
    let rest = place_from (pos + 1) xs seq in
    if eqb x.seq seq then (pos, true) else if ltb seq x.seq then (pos, false) else rest

-- The signed difference from `expected` is at least 0 and at most the window.
unfoldable pub in_window : ℕ → ℕ → Bool
in_window expected seq = leb (sub32 seq expected) reorder_window

pub stash : ℕ → List Pack → Pack → List Pack
unfolding next_of place_from in_window
stash last buf pkt =
    if in_window (next_of last) pkt.seq
    then (let (pos, duplicate) = place_from 0 buf pkt.seq in
        if duplicate then buf else insert_at pos pkt buf)
    else buf

-- The first loop: it empties `pkts_net`.
pub drain : ℕ → List Pack → List Pack → List Pack
unfolding stash
drain last buf [] = buf
drain last buf (p ∷ ps) = drain last (stash last buf p) ps

-- What the second loop leaves: the buffer, the packets passed on, the last of their numbers.
pub record Flushed : Type 0 where
  pub buf : List Pack
  pub passed : List Pack
  pub last : ℕ

pub flush : ℕ → List Pack → Flushed
unfolding next_of
flush last [] = record { buf = []; passed = []; last = last }
flush last (p ∷ ps) =
    let rest = flush p.seq ps in
    if eqb p.seq (next_of last)
    then record rest { passed = p ∷ rest.passed }
    else record { buf = p ∷ ps; passed = []; last = last }

unfoldable pub reordering : Conn → Conn
unfolding drain flush
reordering c =
    let f = flush c.last_recved_seq (drain c.last_recved_seq c.reorder_buf c.net) in
    record c {
      net = [];
      reorder_buf = f.buf;
      reordered = c.reordered ++ f.passed;
      last_recved_seq = f.last;
    }
