-- ===== src/Turn/Messages.antt =====
-- code/devcore/turn/src/statem.c: the messages of a client to its relay and back.  A client's table of
-- requests maps a request's number to its status.  `malloc` is taken to succeed.
use soter.Base.{
  ℕ, ◌-◌, ◌≡◌, refl, sym, ap, ◌∙◌, true, not, ◌&&◌, Option, none, some, List, [], ◌++◌, ltb, eqb,
  if◌then◌else◌, length, take, drop, add32, nat_bytes, Bool-cases, inl, inr,
}
use soter.Proto.{Pack, pack_turn, make_pack}
use soter.Proto.Machine.{Host}
use soter.Table.{Table, Grants, set}
use soter.Turn.{
  TurnRequest, RequestType, open_hole, close_hole, system_msg, req_make, request_image, header_size,
}

-- `turn_sys_status`
pub data SysStatus : Type 0 where
  sst_ok sst_fail sst_sent sst_unknown : SysStatus

abbrev pub status_code : SysStatus → ℕ
status_code sst_ok = 0
status_code sst_fail = 1
status_code sst_sent = 2
status_code sst_unknown = 3

-- The number of the next request, and the requests; a status is its value in memory.
pub record Requests : Type 0 where
  pub turn_suid : ℕ
  pub truid : ℕ
  pub sys_requests : Table ℕ ℕ

module _ (host : Host) (hton : List ℕ → List ℕ) where
  abbrev pub text_of : Option (List ℕ) → List ℕ
  text_of none = []
  text_of (some commentary) = commentary

  pub req_sys : List ℕ → ℕ → ℕ → SysStatus → Option (List ℕ) → TurnRequest
  req_sys to_whom to_uid truid status commentary =
      let payload =
        host.bytes_of (host.ntohl truid)
        ++ (host.bytes_of (status_code status) ++ text_of commentary) in
      req_make host hton system_msg to_whom to_uid truid payload (length payload)

  -- The packet that is put into the sender's queue.
  pub qsend : Requests → TurnRequest → Option Pack
  qsend cli req =
      make_pack true 0 cli.turn_suid 0 pack_turn (some (request_image host req)) header_size

  -- A request to the relay about a peer with this address, UID and payload: the packet, the request's
  -- number, and the client after it.
  pub req_about : Grants → Requests → RequestType → List ℕ → ℕ → List ℕ → Option Pack × ℕ × Requests
  unfolding qsend
  req_about granted cli type addr uid payload =
      let req = req_make host hton type addr uid cli.truid payload (length payload) in
      (
        qsend cli req,
        cli.truid,
        record cli {
          truid = add32 cli.truid 1;
          sys_requests = (set granted cli.sys_requests cli.truid (status_code sst_sent)).1;
        },
      )

  -- `light` is the memory of the peer's `light_peer_info`.
  pub req_bind : Grants → Requests → List ℕ → ℕ → List ℕ → Option Pack × ℕ × Requests
  unfolding req_about
  req_bind granted cli addr uid light = req_about granted cli open_hole addr uid light

  pub req_unbind : Grants → Requests → List ℕ → ℕ → Option Pack × ℕ × Requests
  unfolding req_about
  req_unbind granted cli addr uid = req_about granted cli close_hole addr uid []

-- What `turn_client_unwrap_sys` leaves: the request's data, the commentary if one was made, and the
-- client.
pub record Unwrapped : Type 0 where
  pub data_bytes : List ℕ
  pub commentary : Option (List ℕ)
  pub client : Requests

-- `none` is -1.  The caller's variables behind `truid` and `status` are copied into the request.
pub unwrap_sys : Host → Grants → Requests → TurnRequest → ℕ → ℕ → Option Unwrapped
unwrap_sys host granted cli request truid status =
    if ltb request.d_size 12
    then none
    else let bytes = host.bytes_of truid ++ (host.bytes_of status ++ drop 8 request.data_bytes) in
      if not (eqb truid (status_code sst_fail)) && not (eqb truid (status_code sst_ok))
      then none
      else let known = record cli {
        sys_requests = (set granted cli.sys_requests truid status).1;
      } in
        if ltb 500 (request.d_size - 8)
        then some (record { data_bytes = bytes; commentary = none; client = cli })
        else some (record {
          data_bytes = bytes;
          commentary = some (take (request.d_size - 8) (drop 8 bytes));
          client = known;
        })

abbrev pub client_of : Option Unwrapped → Option Requests
client_of none = none
client_of (some u) = some u.client

-- What is stored, by the length of the answer's data.
abbrev verdict : Grants → Requests → ℕ → ℕ → ℕ → Option Requests
verdict granted cli truid status d_size =
    if ltb d_size 12
    then none
    else if not (eqb truid (status_code sst_fail)) && not (eqb truid (status_code sst_ok))
    then none
    else if ltb 500 (d_size - 8)
    then some cli
    else some (record cli { sys_requests = (set granted cli.sys_requests truid status).1 })

unwrap_sys-verdict :
    (host : Host) (granted : Grants) (cli : Requests) (r : TurnRequest) (truid status : ℕ)
    → client_of (unwrap_sys host granted cli r truid status)
      ≡ verdict granted cli truid status r.d_size
unfolding unwrap_sys
unwrap_sys-verdict host granted cli r truid status = elim (Bool-cases (ltb r.d_size 12)) [
  | inl short ↦ rw (unwrap_sys, short) refl
  | inr long ↦
      elim (Bool-cases
        (not (eqb truid (status_code sst_fail)) && not (eqb truid (status_code sst_ok)))) [
          | inl odd ↦ rw (unwrap_sys, long, odd) refl
          | inr fine ↦ elim (Bool-cases (ltb 500 (r.d_size - 8))) [
            | inl wordy ↦ rw (unwrap_sys, long, fine, wordy) refl
            | inr brief ↦ rw (unwrap_sys, long, fine, brief) refl
          ]
        ]
]

-- Whether an answer of the relay is accepted, and what is stored of it, depends on the length of its
-- data and on the caller's variables alone: what the relay says is overwritten and never read.
pub unwrap_sys-blind :
    (host : Host) (granted : Grants) (cli : Requests) (a b : TurnRequest) (truid status : ℕ)
    → a.d_size ≡ b.d_size
    → client_of (unwrap_sys host granted cli a truid status)
      ≡ client_of (unwrap_sys host granted cli b truid status)
unwrap_sys-blind host granted cli a b truid status same =
    unwrap_sys-verdict host granted cli a truid status
    ∙ ap (verdict granted cli truid status) same
    ∙ sym (unwrap_sys-verdict host granted cli b truid status)
