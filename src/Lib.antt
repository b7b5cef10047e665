-- ===== src/Lib.antt =====
-- The core of soter2, a peer-to-peer library in C, under code/devcore: the containers that every
-- part uses, the packet format, the reliable connections over UDP, what is known of peers, and the
-- HTTP messages of its servers.
--
-- Parts, and how they interact.  Application data goes through `rudp_conn_send` into packets, which
-- the sender puts on the socket; `protopack_recv` takes packets off it and the dispatcher hands them
-- to the connection, whose reordering passes them on to `rudp_conn_recv`.  Packets travel between
-- the threads in protected queues, and connections stand in a protected table.
-- - Base: lists measured by native numbers, machine words, Boolean tests, equality by `memcmp`.
-- - DynArray: base/src/base/dyn_array.c, function by function; prot_array.c is the same under a
--   mutex.  DynArray.Shape is about memory, Search and Distinct about contents.
-- - Queue: base/src/base/prot_queue.c.  Queue.Ring has the invariant and the list that a ring
--   holds, Queue.Fifo the abstract queue.
-- - Table: base/src/base/dyn_table.c under the mutex of prot_table.c; Table.Map is the finite map.
-- - Proto: protocol/src/proto.c, protomsgs.c and the conversion in providers/src/sender.c.
--   Proto.Machine is the interface to the machine below: `htonl`, `ntohl` and how a word lies in
--   memory; Proto.Crc is the checksum; Wire, Relay, Quick and LowSend are
--   about what travels.
-- - Rudp: rudp/src/connection.c and packets.c.  Reorder is `_rudp_conn_reordering`, Timeouts is
--   `_rudp_conn_timeouts`; Ack and Handler are the branches of `_rudp_dispatcher_net_handler` in
--   rudp/src/dispatcher.c for acknowledgements and for data; Window has the sending side over
--   any sequence of events.  Reorder.InOrder, Complete and Stall are about the receiving side.  Holes is the removal that moves the last element into a hole.
-- - Dispatcher: rudp/src/dispatcher.c, the table of connections and what the worker does with one
--   packet; Dispatcher.Isolation is about which connections that touches.
-- - PeerDb: peersyst/src/peerdb.c, the table of peers; PeerDb.Net is what lownet does to addresses.
-- - Gossip: gossip/src/system.c, what is heard of other peers; Gossip.Known is about which entry is
--   kept, Cleanup about how long, Packets about entries as they travel, Choice about the random choice.
-- - Http: uhttp/src/parser.c, requests and responses out of bytes; Http.Build is uhttp/src/api.c, which
--   makes those bytes, and Http.Query the parameters of a path.  Http.Responses is the
--   parser of responses.  Search, Split, Headers, Fields, Decimal, Line and Cut are what RoundTrip is
--   made of; Loop and Bounds hold for any bytes, Sizes is about the blocks.  Http.Server is
--   uhttp/src/server.c, and Chunks about a request that comes in several reads.
-- - Handlers: interface/src/handlers.c, the packets that make and keep a connection, over PeerDb and
--   Proto; Handlers.Handshake composes two nodes, Hello is about one handler.
-- - Turn: turn/src/packets.c, requests to a relay, and the table of bound peers in turn/src/statem.c;
--   Turn.Messages is the part of statem.c that asks the relay and hears its answers, Turn.Wrap the part
--   that wraps packets and waits.  Turn.Service is the handler of TURN packets in
--   interface/src/handlers.c.
-- - Crypto: crypto/src, the calls of libsodium and the files of keys; Crypto.Library is libsodium as a record
--   of functions, with what its documentation promises.
-- - E2ee: e2ee/src/connection.c, the encrypted channel; Handshake and Channel compose two nodes, Loss
--   is about a packet that does not arrive.
-- - Stating: stating/src/state.c and the handler of STATE packets; Stating.Machine is how a 64-bit word
--   lies in memory, Stating.Address what `ln_hton` and `ln_ntoh` of lownet/src/core.c do to the memory of
--   an address.  Layout and Signed are about one request, Entries and Answers about a packet of many.
-- - Natpunch: natpunch/src/stun.c; Attributes, Answers and Mapped are about what a server sends, Nat is
--   natpunch/src/nat.c.
-- - Socks: proxy/src/socks5.c up to the tunnel, with the reading of lownet/src/tcp_sock.c; Dialogue is
--   about a whole client, Resolving the connection to what it asks for.
-- - Watcher: watcher/src/system.c, packets for the handlers of their types; Backlog is about any order of
--   packets and rounds of its thread.
-- - Lownet: lownet/src/core.c, addresses; Addresses is about their conversions.
-- - Tests: runs on concrete inputs.
--
-- Conventions.  Pointers to the objects themselves are not null, so the tests for that are left
-- out.  An operation holds its mutex throughout and is one step; threads are any interleaving of
-- such steps, written as a list of events.  A Boolean argument `granted` or `room` tells whether an
-- allocation succeeds; where the code does not test one, it is taken to succeed.  A queue inside
-- a connection is the list that Queue.Fifo shows it to be, an array the list of its elements.
-- `uint32_t` and `size_t` arithmetic has its wrap-around written out.  Times are those of a clock
-- that is not negative, and a comparison of a difference is written as one of sums.
--
-- Loops are recursion on the list that is left, or on a number of rounds where elements are removed
-- on the way: each round either removes an element or steps over one, so that as many rounds as
-- elements are enough.  A header line takes at least two bytes, so that as many rounds as bytes are
-- enough for the header loop.  An attribute of a STUN answer takes at least four of at most 1024 bytes, so
-- that 257 rounds are enough; each round over pairs of STUN servers takes an index further, so that
-- twice as many rounds as servers are enough.
--
-- Not modelled: sockets, event pipes and threads, printing, libsodium itself, the external libraries for
-- QUIC and JSON, the hash table that is a copy of another author's, the tunnel's loop of the SOCKS5
-- server and the threads of the HTTP server, and, so far, the listener and the daemons of the
-- application interface.  .old is an earlier version that nothing builds.
pub mod Base
pub mod DynArray
pub mod Queue
pub mod Table
pub mod Proto
pub mod Rudp
pub mod PeerDb
pub mod Dispatcher
pub mod Http
pub mod Gossip
pub mod Handlers
pub mod Turn
pub mod Crypto
pub mod E2ee
pub mod Stating
pub mod Natpunch
pub mod Socks
pub mod Watcher
pub mod Lownet
pub mod Tests
