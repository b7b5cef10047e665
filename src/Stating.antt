-- ===== src/Stating.antt =====
-- code/devcore/stating/src/state.c, and of code/devcore/interface/src/handlers.c the handler of STATE
-- packets: signed requests of peers to a state server, and its answers.
pub mod Address
pub mod Machine
pub mod Layout
pub mod Signed
pub mod Answers
pub mod Entries
use soter.Base.{
  ℕ, zero, suc, ◌+◌, ◌-◌, ◌*◌, ◌%◌, Bool, true, false, not, ◌&&◌, Option, none, some, List, [], ◌∷◌,
  ◌++◌, ltb, leb, eqb, if◌then◌else◌, length, take, drop, size_mod,
}
use soter.Proto.{Pack}
use soter.Proto.Machine.{Host}
use soter.Crypto.Library.{Sodium}
use soter.Crypto.{Sign, pubkey_and_uid_check, sign_data, sign_verify}
use soter.Stating.Address.{converted}
use soter.Stating.Machine.{Wide, htonll, ntohll}

-- `state_request`; an address is the bytes of a `naddr_t`.
pub record StateRequest : Type 0 where
  pub addr : List ℕ
  pub uid : ℕ
  pub pubkey : List ℕ
  pub signature : List ℕ
  pub type : ℕ
  pub nonce : ℕ
  pub timestamp : ℕ

-- `sizeof(state_request)`
abbrev pub request_size : ℕ
request_size = 168

-- `state_sys_request`
pub record Answer : Type 0 where
  pub req : StateRequest
  pub come_from : List ℕ

-- `state_system`: the queue, and whether its event is signalled.
pub record StateSystem : Type 0 where
  pub new_state_ans : List Answer
  pub signalled : Bool

-- `opened` tells whether the event could be made.
pub sys_init : Bool → Option StateSystem
sys_init opened = if opened then some (record { new_state_ans = []; signalled = false }) else none

-- Nothing within the time, an answer, or, where the queue is empty, what was in memory.
pub data Waited : Type 0 where
  timed_out : Waited
  got : Answer → Waited
  garbage : Waited

-- The wait ends at once where the event is signalled, else as `mt_evsock_wait` says, by the time or
-- by an error.
pub sys_wait : StateSystem → Waited × StateSystem
sys_wait sys = if not sys.signalled then (timed_out, sys) else elim sys.new_state_ans [
  | [] ↦ (garbage, record sys { signalled = false })
  | a ∷ rest ↦ (got a, record { new_state_ans = rest; signalled = false })
]

-- `memcmp` of two blocks of the same length gives 0.
unfoldable pub memcmp_same : List ℕ → List ℕ → Bool
memcmp_same [] [] = true
memcmp_same [] (y ∷ ys) = false
memcmp_same (x ∷ xs) [] = false
memcmp_same (x ∷ xs) (y ∷ ys) = let rest = memcmp_same xs ys in if eqb x y then rest else false

-- What `state_rreceive` ends in: -1, a copy of the address's text over its end, or a request.
pub data Received : Type 0 where
  refused : Received
  overrun : Received
  received : StateRequest → Received

-- The difference of two times in 64 bits is at least 30 seconds.
pub too_old : ℕ → ℕ → Bool
too_old now timestamp =
    let dt = (now + size_mod - timestamp) % size_mod in leb 30 dt && ltb dt 9223372036854775808

module _ (host : Host) (wide : Wide) (sodium : Sodium) where
  -- The structure in memory.
  unfoldable pub request_image : StateRequest → List ℕ
  request_image req =
      req.addr
      ++ (host.bytes_of req.uid
          ++ (req.pubkey
              ++ (req.signature
                  ++ (host.bytes_of req.type
                      ++ (host.bytes_of req.nonce ++ wide.bytes_of64 req.timestamp)))))

  unfoldable pub request_of : List ℕ → StateRequest
  request_of bytes = record {
    addr = take 52 bytes;
    uid = host.word_of (take 4 (drop 52 bytes));
    pubkey = take 32 (drop 56 bytes);
    signature = take 64 (drop 88 bytes);
    type = host.word_of (take 4 (drop 152 bytes));
    nonce = host.word_of (take 4 (drop 156 bytes));
    timestamp = wide.word_of64 (take 8 (drop 160 bytes));
  }

  -- What is signed: the fields in network order.
  unfoldable pub sign_buff : StateRequest → List ℕ
  sign_buff req =
      host.bytes_of req.nonce
      ++ (req.addr
          ++ (host.bytes_of req.uid
              ++ (host.bytes_of req.type ++ (wide.bytes_of64 req.timestamp ++ req.pubkey))))

  -- `state_sys_request`, which has no padding.
  abbrev pub answer_image : Answer → List ℕ
  answer_image a = request_image a.req ++ a.come_from

  -- An element with the same bytes is in the queue.
  unfoldable pub waits : Answer → List Answer → Bool
  unfolding request_image
  waits a [] = false
  waits a (b ∷ rest) =
      let later = waits a rest in
      if memcmp_same (answer_image a) (answer_image b) then true else later

  -- `prot_queue_upush` leaves out what waits already; the event is signalled anyway.
  unfoldable pub new_ans : StateSystem → StateRequest → List ℕ → StateSystem
  unfolding waits
  new_ans sys req server_from =
      let a : Answer = record { req = req; come_from = server_from } in
      if waits a sys.new_state_ans
      then record sys { signalled = true }
      else record { new_state_ans = sys.new_state_ans ++ (a ∷ []); signalled = true }

  -- The request around an address in network order.  `random` is a word of libsodium's, `now` the
  -- clock's seconds.
  unfoldable pub request_with : ℕ → ℕ → List ℕ → ℕ → ℕ → Sign → StateRequest
  request_with random now net uid type s =
      let bare : StateRequest = record {
        addr = net;
        uid = host.htonl uid;
        nonce = host.htonl random;
        type = type % 256;
        timestamp = htonll host now;
        pubkey = take 32 s.id_pub;
        signature = [];
      } in
      record bare { signature = sign_data sodium s (sign_buff bare) }

  -- `none` is a copy of the address's text over its end, here and below.
  pub rcreate : ℕ → ℕ → List ℕ → ℕ → ℕ → Sign → Option StateRequest
  unfolding request_with
  rcreate random now addr uid type s = elim (converted host wide.htons addr) [
    | none ↦ none
    | some net ↦ some (request_with random now net uid type s)
  ]

  abbrev pub to_host : List ℕ → StateRequest → StateRequest
  to_host addr req = record req {
    addr = addr;
    uid = host.ntohl req.uid;
    nonce = host.ntohl req.nonce;
    timestamp = ntohll host req.timestamp;
  }

  -- The data are at least a request long.
  unfoldable pub rreceive : List ℕ → Received
  rreceive bytes =
      let req = request_of bytes in
      if not (sign_verify sodium (sign_buff req) req.signature req.pubkey)
      then refused
      else elim (converted host wide.ntohs req.addr) [
        | none ↦ overrun
        | some addr ↦
            if not (pubkey_and_uid_check sodium host req.pubkey (host.ntohl req.uid))
            then refused
            else received (to_host addr req)
      ]

  pub retranslate : StateRequest → Option StateRequest
  retranslate req = elim (converted host wide.htons req.addr) [
    | none ↦ none
    | some net ↦ some (record req {
      addr = net;
      uid = host.htonl req.uid;
      nonce = host.htonl req.nonce;
      timestamp = htonll host req.timestamp;
    })
  ]

  -- One round of the handler's loop.
  pub hear : ℕ → ℕ → List ℕ → StateSystem → List ℕ → Option StateSystem
  unfolding rreceive new_ans
  hear now self_uid from sys bytes = elim (rreceive bytes) [
    | refused ↦ some sys
    | overrun ↦ none
    | received req ↦
        if eqb req.uid self_uid
        then some sys
        else if too_old now req.timestamp
        then some sys
        else some (new_ans sys req from)
  ]

  unfoldable pub hear_all : ℕ → ℕ → List ℕ → StateSystem → ℕ → List ℕ → Option StateSystem
  hear_all now self_uid from sys zero bytes = some sys
  hear_all now self_uid from sys (suc n) bytes =
      elim (hear now self_uid from sys (take request_size bytes)) [
        | none ↦ none
        | some sys' ↦ hear_all now self_uid from sys' n (drop request_size bytes)
      ]

  -- The payload is the memory behind the header; `none` is an access outside of a block, `true` the
  -- status 0.  The clock is read once here.
  pub hnd_state : ℕ → ℕ → List ℕ → StateSystem → Pack → Option (Bool × StateSystem)
  unfolding hear_all
  hnd_state now self_uid from sys pck =
      let peers_count = host.ntohl (host.word_of (take 4 pck.data_bytes)) in
      if ltb pck.d_size 4
      then some (false, sys)
      else if ltb (length pck.data_bytes) 4
      then none
      else if not (eqb pck.d_size (4 + peers_count * request_size))
      then some (false, sys)
      else if ltb (length pck.data_bytes) pck.d_size
      then none
      else elim (hear_all now self_uid from sys peers_count (drop 4 pck.data_bytes)) [
        | none ↦ none
        | some sys' ↦ some (true, sys')
      ]
