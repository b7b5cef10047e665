-- ===== src/Tests/Serving.antt =====
-- server.c and the watcher on clients and packets that come in pieces.
use soter.Base.{ℕ, ◌≤◌, ◌≡◌, refl, true, false, List, [], ◌∷◌, ◌++◌, map, arith, length, init_of}
use soter.Proto.{Pack, filled, pack_ping}
use soter.Http.{Bytes, parse_request, split_head, find_sequence, starts_with}
use soter.Http.Build.{request_bytes, length_header, str_method}
use soter.Http.Decimal.{decimal}
use soter.Http.RoundTrip.{body_read, parse_request-request_bytes}
use soter.Http.Server.{Read, got, closed}
use soter.Http.Server.Chunks.{feed, stays, feed-chunks, feed-split}
use soter.Watcher.{Watcher}
use soter.Watcher.Backlog.{passed, round, run, run-behind}
use soter.Tests.Web.{first, second, posted, posted-IsPlain, first-IsOther, second-IsOther}

abbrev text : Bytes
text = request_bytes posted

feed-chunks_example :
    feed {Sock = ℕ} true
      (map got [] ++ (got text ∷ []))
      (record { sock = 7; read_data = []; read_done = false })
    ≡ (
      record {
        method = posted.method;
        path = posted.path;
        headers = length_header (length posted.body) ∷ init_of first (second ∷ []);
        content_length = length posted.body;
        body = body_read posted.method posted.body;
      }
          ∷ [],
      stays (record { sock = 7; read_data = []; read_done = false }),
    )
unfolding request_bytes str_method decimal
feed-chunks_example =
    feed-chunks true 7 [] [] text
      (record {
        method = posted.method;
        path = posted.path;
        headers = length_header (length posted.body) ∷ init_of first (second ∷ []);
        content_length = length posted.body;
        body = body_read posted.method posted.body;
      })
      _ (omega arith)
      (parse_request-request_bytes posted first (second ∷ []) posted-IsPlain refl
        (first-IsOther, (second-IsOther, tt)) (omega arith))

-- "GET / " and then the rest.
abbrev start : Bytes
start = b'G' ∷ b'E' ∷ b'T' ∷ 32 ∷ b'/' ∷ 32 ∷ []

abbrev rest : List Read
rest = got (b'H' ∷ b'T' ∷ b'T' ∷ b'P' ∷ 13 ∷ 10 ∷ 13 ∷ 10 ∷ []) ∷ closed ∷ []

feed-split_example :
    feed {Sock = ℕ} true (got start ∷ rest) (record { sock = 7; read_data = []; read_done = false })
    ≡ ([], stays (record { sock = 7; read_data = [] ++ start; read_done = true }))
unfolding parse_request split_head find_sequence starts_with
feed-split_example = feed-split true 7 [] start rest (omega arith) refl

abbrev watcher : Watcher ℕ ℕ
watcher = record { passed_packets = []; newpack = false; handlers = [] }

abbrev ping : Pack
ping = filled 1 2 3 pack_ping 0 []

run-behind_example :
    let after =
      run (passed ping 5 ∷ passed ping 6 ∷ (round ∷ round ∷ passed ping 7 ∷ round ∷ [])) watcher in
    1 ≤ length after.passed_packets
run-behind_example = run-behind watcher ping ping 5 6 (round ∷ round ∷ passed ping 7 ∷ round ∷ [])
