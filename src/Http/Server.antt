-- ===== src/Http/Server.antt =====
-- code/devcore/uhttp/src/server.c: what the server does with the bytes of a client, the clients in turn,
-- and the requests.  The queues between its threads are lists.
pub mod Chunks
use soter.Base.{
  ℕ, zero, suc, ◌+◌, Bool, true, false, not, Option, none, some, List, [], ◌∷◌, ◌++◌, ltb, leb, eqb,
  if◌then◌else◌, length, get_elem?, remove_at, set,
}
use soter.Http.{Bytes, Request, Outcome, ok, error, incomplete, text_plain, parse_request}
use soter.Http.Build.{Answer, create_response}
use soter.Http.Query.{get_clear_route}

-- `uhttp_cli_state`
pub record ClientState (Sock : Type 0) : Type 0 where
  pub sock : Sock
  pub read_data : Bytes
  pub read_done : Bool

-- What `ln_tsock_read` gives: nothing for now, the end, at most 2048 bytes, or another error.
pub data Read : Type 0 where
  again closed broken : Read
  got : Bytes → Read

-- A copy of `SIZE_MAX` bytes, or what the handler returns, the client, and the request that it put
-- into the queue.
pub data Handled (Sock : Type 0) : Type 0 where
  crashed : Handled Sock
  handled : Bool → ClientState Sock → Option Request → Handled Sock

module _ {Sock : Type 0} where
  -- `granted` is about the memory of the parsed request.
  unfoldable pub process : Bool → ClientState Sock → Handled Sock
  process granted st = elim (parse_request granted st.read_data) [
    | ok req ↦
        let fresh : ClientState Sock = record st { read_done = false; read_data = [] } in
        handled false fresh (some req)
    | error ↦ handled false st none
    | incomplete ↦ handled false st none
  ]

  -- `room` is about the memory for what was read.
  unfoldable pub handler : Bool → Bool → ClientState Sock → Read → Handled Sock
  unfolding process
  handler granted room st read = if st.read_done then process granted st else elim read [
    | again ↦ handled false st none
    | closed ↦ handled true st none
    | broken ↦ if room then crashed else handled true st none
    | got bytes ↦
        if not room
        then handled true st none
        else let longer : ClientState Sock = record st { read_data = st.read_data ++ bytes } in
          if ltb (length bytes) 2048
          then process granted (record longer { read_done = true })
          else handled false longer none
  ]

  -- The loop over the clients, for so many rounds from the `i`th on: `readable` tells of each round whether
  -- the client is ready within its time, `serve` what its handler returns; a client that is not
  -- ready is asked again.
  unfoldable pub poll_clients :
      List Bool
      → (ClientState Sock → Bool × ClientState Sock)
      → ℕ
      → List (ClientState Sock)
      → ℕ × List (ClientState Sock)
  poll_clients [] serve i clients = (i, clients)
  poll_clients (ready ∷ readable) serve i clients = elim (get_elem? clients i) [
    | none ↦ (i, clients)
    | some cli ↦
        let stay = poll_clients readable serve i clients in
        let gone = poll_clients readable serve i (remove_at i clients) in
        let next = poll_clients readable serve (i + 1) (set clients i (serve cli).1) in
        if not ready then stay else if (serve cli).0 then gone else next
  ]

-- `uhttp_route`
pub record Route (Sock : Type 0) : Type 0 where
  pub path : Bytes
  pub handler : Sock → Request → Answer

unfoldable pub same_text : Bytes → Bytes → Bool
same_text [] [] = true
same_text [] (y ∷ ys) = false
same_text (x ∷ xs) [] = false
same_text (x ∷ xs) (y ∷ ys) = let rest = same_text xs ys in if eqb x y then rest else false

-- `-1`, a write past the 512 bytes of a path, or the routes with the new one.
pub data Routed (Sock : Type 0) : Type 0 where
  refused overrun : Routed Sock
  routes : List (Route Sock) → Routed Sock

module _ {Sock : Type 0} where
  pub set_route : Bool → List (Route Sock) → Bytes → (Sock → Request → Answer) → Routed Sock
  set_route granted known path handler =
      if eqb (length path) 0
      then refused
      else if not granted
      then refused
      else if ltb 511 (length path)
      then overrun
      else routes (known ++ (record { path = path; handler = handler } ∷ []))

  -- The answer to a request: that of the first route with this path, else 404, where there is memory.
  unfoldable pub first_route : List (Route Sock) → Bytes → Option (Route Sock)
  unfolding same_text
  first_route [] path = none
  first_route (r ∷ rs) path =
      let rest = first_route rs path in if same_text path r.path then some r else rest

  pub poll_one : Bytes → List (Route Sock) → Sock → Request → Option Answer
  unfolding first_route
  poll_one not_found known nfd req = elim (get_clear_route true req.path) [
    | none ↦ none
    | some path ↦ elim (first_route known path) [
      | some route ↦ some (route.handler nfd req)
      | none ↦ create_response true 404 (some not_found) [] 0 text_plain
    ]
  ]
