-- ===== src/Lib.antt =====
-- A model of the core of ouinet, whose clients share a distributed cache of web pages that they find
-- through a BitTorrent DHT.
--
-- The modelled parts, from the bottom up:
-- - Parse/Number: src/parse/number.h, the decimal numbers that the other parsers read. A view is the
--   list of its bytes, and a function returns its result with what is left of the view.
-- - Bittorrent/Bencoding: src/bittorrent/bencoding.h and bencoding.cpp, the encoder and the decoder of
--   the messages of the DHT. The decoder and its two loops take fuel: 2n + 1 for a text of n bytes is
--   enough, since each call or each pair of calls erases a byte.
-- - Bittorrent/NodeId: src/bittorrent/node_id.h and node_id.cpp, the 160-bit identifiers and their XOR
--   metric.
-- - Bittorrent/RoutingTable: src/bittorrent/routing_table.h and routing_table.cpp, the k-buckets of a
--   node. The table is a record; an operation takes it and returns the new table with the contacts
--   that it pinged. Time is an argument in nanoseconds. RoutingTable/Update has the two operations that
--   change the table, RoutingTable/Closest the lookup.
-- - Bittorrent/Compact: src/bittorrent/code.h and node_contact.h, the compact form of contacts.
-- - Bittorrent/MutableData: src/bittorrent/mutable_data.h and mutable_data.cpp, the signed items of the
--   DHT. The signature scheme of gcrypt is a parameter.
-- - Bittorrent/Storage: src/bittorrent/dht_storage.h and dht_storage.cpp, the swarms with their index
--   (Swarm), the tracker over them (Tracker), the write tokens (Tokens) and the items that are put
--   (DataStore). What SHA-1, `rand` and the clock return are arguments. The loop of `expire` takes the
--   number of peers as fuel: each round removes a peer or passes one.
-- - Bittorrent/ProximityMap: src/bittorrent/proximity_map.h, the nearest nodes of a lookup.
-- - Bittorrent/DhtNode: src/bittorrent/mainline_dht.cpp and dht_node.h, a node over these parts.
--   `handle_query` takes the node and returns it with the datagram that it sends (DhtNode/Query); its
--   branches are in DhtNode/Lookups, Announce and Put. DhtNode/Steps is an abstract machine on what the
--   node stores, which forgets the messages and tokens; DhtNode/Refinement and DhtNode/Put/Refinement map
--   the handlers to its steps. DhtNode/Requests has the transactions and the dispatch of received packets;
--   the coroutine of a request is split where it waits. What the view of a transaction shows once an entry
--   was inserted before it is a parameter. The four rounds of fuel for a transaction's text are enough for
--   its 32 bits. The iterated lookups and bootstrapping are not modelled.
-- - Http: what the cache reads of HTTP messages; Http/Split is src/split_string.h, Http/Injection and
--   Http/Ranges are from src/http_util.cpp; each round over the ranges takes a hyphen, so that one more round
--   of fuel than there are bytes is enough. What Boost does is the record `Library`.
-- - CacheControl: src/cache_control.h and cache_control.cpp, with the requests of src/request.h that it
--   sends on (CacheControl/Operations). CacheControl/Fetch is `fetch`: its two coroutines end in any order,
--   which a list of events gives; it waits on if these run out too early. CacheControl/Cacheable is
--   `ok_to_cache`. The loop over the items of a text takes one more round of fuel than the text has bytes,
--   since each round takes a separator.
-- - Cache: src/cache/chain_hasher.h and hash_list.cpp, the chained signatures of a response's blocks. The
--   body of a message is a list of parts; the parser's inner loop takes one more round of fuel than the
--   buffer has bytes, since each round with progress takes a byte.
--   Cache/HttpSignature, Cache/SignedHead, Cache/VerifyingReader and Cache/SigningReader are
--   src/cache/http_sign.cpp and signed_head.cpp: the signatures of heads and the readers that sign and
--   verify the blocks of a body. The reader under a verifying reader is the list of its parts; the head of
--   the signing reader is given. What Boost.Beast does with fields, and base64, the chunk extensions and
--   gcrypt are the records `HeadLibrary`, `ReaderLibrary` and `Signer`.
--   Cache/DhtGroups is src/cache/dht_groups.cpp: the groups in memory with a directory for each on a disk
--   whose steps may fail and whose removals may stop half-way, as an argument tells.
--   Cache/ResourceId is src/cache/resource_id.h and resource_id.cpp.
-- - Util/QuantizedBuffer: src/util/quantized_buffer.h, and Util/Bytes: src/util/bytes.h, hexadecimal and
--   printable text.
-- - Util/LruCache: src/util/lru_cache.h, a list of nodes with addresses and a map of iterators, and
--   Util/Semaphore: src/util/semaphore.h, as steps of a state that also counts the locks that exist.
-- - Prelude has helpers and the library's names, Tests the concrete inputs.
--
-- Numbers are the native natural numbers with the wrap-around of the source written out, and bytes are
-- numbers below 256. The routing table and the storage have endpoints as a parameter with an equality
-- test; Bittorrent/Compact has their bytes. The
-- coroutines, sockets, files and calls of OpenSSL around these parts are not modelled.
pub mod Bittorrent
pub mod Cache
pub mod CacheControl
pub mod Http
pub mod Parse
pub mod Prelude
pub mod Tests
pub mod Util
