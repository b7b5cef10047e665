-- ===== src/Rudp/Reorder/Stall.antt =====
-- connection.c: the buffer is ordered by plain comparison while the window wraps around, so that near
-- 2^32 a packet that comes early stands before the one that is due.
use soter.Base.{ℕ, ◌<◌, ◌≡◌, List, ◌∷◌, ◌++◌}
use soter.Proto.{Pack}
use soter.Rudp.{Conn}
use soter.Rudp.Reorder.{next_of}

-- The front of the buffer has a smaller number than the one that is due.
abbrev Stalled : ℕ → List Pack → Type 0
Stalled last buf = (p : Pack) × (ps : List Pack) × (buf ≡ p ∷ ps) × (p.seq < next_of last)

-- Nothing is passed on, neither to the application nor to what waits for it.
record Still (c : Conn) (out : List Pack) (c' : Conn) : Type 0 where
  kept : out ++ c'.reordered ≡ c.reordered
  same : c'.last_recved_seq ≡ c.last_recved_seq
  stuck : Stalled c'.last_recved_seq c'.reorder_buf
