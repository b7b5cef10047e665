-- ===== src/Dispatcher.antt =====
-- code/devcore/rudp/src/dispatcher.c: the connections by the peer's UID, and what the worker does
-- with each packet that the listener passed.  A connection is stored in the table itself, where the
-- code stores a pointer that only the dispatcher frees.  `rand` gives any number.
use soter.Base.{
  ℕ, ◌%◌, ◌≡◌, refl, ◌⊎◌, inl, inr, Bool, true, false, not, Option, none, some, List, [], ◌∷◌, ◌++◌,
  eqb, ltb, if◌then◌else◌, length, get_elem?, u32_max, nat_bytes, ◌==◌, Bool-cases, Option-cases,
  ◌∙◌, ◌≢◌, eqb→eq, ==-eq,
}
use soter.Proto.{Pack, type_code, type_max, pack_data, pack_rack, pack_fin, copy_pack}
use soter.Rudp.{Conn, conn_new, conn_close}
use soter.Rudp.Ack.{handle_rack}
use soter.Rudp.Handler.{handle_data}
use soter.Rudp.Timeouts.{timeouts}
use soter.Table.{Table, Grants, Status, ok, fail, set, remove, get, modify}
pub mod Isolation

pub record Disp : Type 0 where
  pub self_uid : ℕ
  pub passed : List Pack
  pub connections : Table ℕ Conn

-- The connection found, the status -1, or a division by zero.
pub data Lookup : Type 0 where
  found : ℕ → Conn → Lookup
  missing : Lookup
  division_by_zero : Lookup

-- A connection with the UID, if there is one, is replaced; the status of the table is dropped.
pub est_connection : Grants → ℕ → Disp → ℕ → Disp
est_connection granted now d other_uid = record d {
  connections = (set granted d.connections other_uid (conn_new d.self_uid other_uid now)).1;
}

abbrev pub at_index : Option (ℕ × Conn) → Lookup
at_index none = missing
at_index (some p) = found p.0 p.1

abbrev pub by_uid : ℕ → Option Conn → Lookup
by_uid uid none = missing
by_uid uid (some c) = found uid c

-- `UINT32_MAX` asks for any connection.
pub get_connection : ℕ → Disp → ℕ → Lookup
get_connection rand d uid =
    if eqb uid u32_max
    then (if eqb (length d.connections.pairs) 0
        then division_by_zero
        else at_index (get_elem? d.connections.pairs (rand % length d.connections.pairs)))
    else by_uid uid (get d.connections uid)

pub close_connection : Bool → Disp → ℕ → Status × Disp
close_connection granted d uid = elim (modify d.connections uid (conn_close granted)) [
  | none ↦ (fail, d)
  | some t ↦ let (status, t') = remove t uid in (status, record d { connections = t' })
]

pub pass : Disp → Pack → Disp
pass d pkt = record d { passed = d.passed ++ (pkt ∷ []) }

abbrev pub written : Disp → Option (Table ℕ Conn) → Disp
written d none = d
written d (some t) = record d { connections = t }

-- What a round of the worker ends in: the next state, a read outside of the packet or of a table, or a crash.
pub data Round : Type 0 where
  continued : Disp → Round
  overread : Round
  crashed : Round

-- `_rudp_dispatcher_net_handler` on the connection `conn`, which stands under `uid`.  A packet that is
-- none of the three is reported with the name of its type, which is looked up in
-- `PROTOPACK_TYPES_CHAR`.
pub net_handler : Bool → ℕ → Disp → ℕ → Conn → Pack → Round
net_handler granted now d uid conn pkt =
    if eqb pkt.packtype (type_code pack_data)
    then continued (written d (modify d.connections uid (λ c. handle_data granted now c pkt)))
    else if eqb pkt.packtype (type_code pack_rack)
    then continued (written d (modify d.connections uid (λ c. handle_rack now c pkt)))
    else if eqb pkt.packtype (type_code pack_fin)
    then continued (close_connection granted d conn.c_uid).1
    else if ltb pkt.packtype type_max
    then continued d
    else overread

-- One packet that the worker popped.
pub dispatch : Bool → ℕ → ℕ → Disp → Pack → Round
dispatch granted rand now d pkt = elim (get_connection rand d pkt.h_from) [
  | missing ↦ continued d
  | division_by_zero ↦ crashed
  | found uid c ↦ elim (copy_pack pkt) [
    | none ↦ overread
    | some copy ↦ net_handler granted now d uid c copy
  ]
]

-- The timeouts of every connection in the table, in its order.
timeouts_all : ℕ → List (ℕ × Conn) → List (ℕ × Conn)
timeouts_all now [] = []
timeouts_all now (p ∷ ps) = (p.0, (timeouts now p.1).1) ∷ timeouts_all now ps

pub check_timeouts : ℕ → Disp → Disp
unfolding timeouts_all
check_timeouts now d =
    let t : Table ℕ Conn = d.connections in
    record d { connections = record t { pairs = timeouts_all now t.pairs } }
