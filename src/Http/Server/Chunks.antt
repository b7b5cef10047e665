-- ===== src/Http/Server/Chunks.antt =====
-- server.c: a request that comes in several reads.
use soter.Base.{
  ◌<◌, ◌≡◌, refl, sym, ap, ◌∙◌, Bool, true, false, Option, none, some, List, [], ◌∷◌, ◌++◌, map,
  arith, if◌then◌else◌, length, All, append_assoc, lt→ltb, le→not-ltb,
}
use soter.Http.{Bytes, Request, ok, incomplete, parse_request}
use soter.Http.Server.{ClientState, Read, got, crashed, handled, process, handler}

abbrev requests_of : Option Request → List Request
requests_of none = []
requests_of (some req) = req ∷ []

abbrev pub joined : List Bytes → Bytes
joined [] = []
joined (c ∷ chunks) = c ++ joined chunks

-- Where the reads leave a client: with the server, let go, or gone down with it.
pub data Fate (Sock : Type 0) : Type 0 where
  stays : ClientState Sock → Fate Sock
  let_go : Fate Sock
  down : Fate Sock

module _ {Sock : Type 0} (granted : Bool) where
  -- What the handler makes of these reads, one after the other: the requests in order and where it
  -- leaves the client, whose reads after it is let go are not looked at.
  unfoldable pub feed : List Read → ClientState Sock → List Request × Fate Sock
  feed [] st = ([], stays st)
  feed (r ∷ reads) st = elim (handler granted true st r) [
    | crashed ↦ ([], down)
    | handled gone st' req ↦
        let rest = feed reads st' in
        if gone then (requests_of req, let_go) else (requests_of req ++ rest.0, rest.1)
  ]

  -- A request that comes in reads that fill the buffer but for the last is parsed as a whole, put into
  -- the queue once, and the client stays with the server, ready for the next request.
  pub feed-chunks :
      (sock : Sock) (before : Bytes) (chunks : List Bytes) (last : Bytes) (req : Request)
      → All (λ c. length c ≡ 2048) chunks
      → length last < 2048
      → parse_request granted (before ++ (joined chunks ++ last)) ≡ ok req
      → feed
          (map got chunks ++ (got last ∷ []))
          (record { sock = sock; read_data = before; read_done = false })
        ≡ (req ∷ [], stays (record { sock = sock; read_data = []; read_done = false }))
  unfolding feed handler process
  feed-chunks sock before [] last req fulls short parsed =
      rw (feed, lt→ltb (length last) 2048 short, process, parsed) refl
  feed-chunks sock before (c ∷ chunks) last req (whole, fulls) short parsed =
      let again : parse_request granted ((before ++ c) ++ (joined chunks ++ last))
          ≡ parse_request granted (before ++ ((c ++ joined chunks) ++ last)) =
        ap (parse_request granted) (
          append_assoc before c (joined chunks ++ last)
          ∙ ap (λ t. before ++ t) (sym (append_assoc c (joined chunks) last))) in
      rw (feed, le→not-ltb (length c) 2048 (omega (arith, whole)))
        (feed-chunks sock (before ++ c) chunks last req fulls short (again ∙ parsed))

  feed-done :
      (sock : Sock) (bytes : Bytes) (reads : List Read)
      → parse_request granted bytes ≡ incomplete
      → let st : ClientState Sock = record { sock = sock; read_data = bytes; read_done = true } in
        feed reads st ≡ ([], stays st)
  unfolding feed handler process
  feed-done sock bytes [] e = refl
  feed-done sock bytes (r ∷ reads) e = rw (feed, handler, process, e) (feed-done sock bytes reads e)

  -- Where a read does not fill the buffer and the request is not complete yet, its rest is never read:
  -- whatever the reads after it give, no request is put into the queue, and the client stays with the
  -- server, even when it has closed its side.
  pub feed-split :
      (sock : Sock) (before first : Bytes) (reads : List Read)
      → length first < 2048
      → parse_request granted (before ++ first) ≡ incomplete
      → feed (got first ∷ reads) (record { sock = sock; read_data = before; read_done = false })
        ≡ ([], stays (record { sock = sock; read_data = before ++ first; read_done = true }))
  unfolding feed handler process
  feed-split sock before first reads short e =
      rw (feed, lt→ltb (length first) 2048 short, process, e)
        (feed-done sock (before ++ first) reads e)
