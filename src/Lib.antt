-- ===== src/Lib.antt =====
-- A trading client of the Deribit test exchange. `OrderAPI` places, changes and cancels orders and
-- reads order books with HTTP requests; `TokenManager` keeps the access token of its requests;
-- `CurlConnectionManager` keeps the libcurl handles that they run on; `MemoryPool` keeps blocks
-- that orders are built in. `ThreadPool` runs the tasks of some methods. A WebSocket server sends
-- compressed order books to clients. The two queues, `WaitFreeQueue` and `LockFreeQueue`, are not used
-- by the rest. Building the program has left the program with which CMake identifies the compiler.
--
-- What several threads share is also modelled with threads that interleave: `ThreadPool` as a
-- relation between states, whose steps are the locked sections, the notifications and the accesses
-- outside the mutex; `WaitFreeQueue` as turns of two threads, one access to shared memory each; the
-- requests of a batch as turns of one thread for each, a turn being a locked call, an attempt or half
-- of an append. Nothing guards that append: its two turns let one thread lose what another appended,
-- and what more the race may do to the vector is not modelled. What other threads do to the server's
-- subscriptions, and which connections go, is a list of changes, one before each test of an update
-- loop; the list is the fuel of that loop.
--
-- The files, and the code they model:
--   Text, Base, Loans   `std::string`; what a call can end with, shared lemmas, how often a list
--                       holds an element; pools of loans
--   Curl                `WriteCallback` of utils.cpp, over libcurl
--   Pool                `MemoryPool` of utils.h and utils.cpp
--   Connection          CurlConnectionManager.h and CurlConnectionManager.cpp
--   Http                `performCurlRequest` of order_management.cpp
--   Response            how order_management.cpp strips the header of a reply and recognises gzip
--   Gzip                `decompressGzip` of order_management.cpp, over zlib
--   Json                `parseJSONResponse` and `rapidjsonToNlohmannJson` of utils.cpp; its children
--                       are about the entries, the end and the kind of what is returned
--   Token               token_manager.h and token_manager.cpp
--   Orders              `OrderAPI` of order_management.h and order_management.cpp; its children Place,
--                       Cancel, Modify and Market have the methods. Calls has series of calls;
--                       Changes the transitions of what the calls share, as a specification, with
--                       a Step below each method; Refine, History and Storage are
--                       about any call and any series of them
--   Batch               `batchNetworkRequests` of order_management.cpp, over the multi interface
--   AsyncBatch          `performBatchAsyncCurlRequest` of order_management.cpp
--   WaitFree            wait_free_queue.h, against a bounded list in Bounded, and with a producer and
--                       a consumer interleaved in Threads
--   Workers             `ThreadPool` of utils.h and utils.cpp; its children are about every state
--                       (Sound, Served), about how its workers come to an end of what is queued
--                       (Drained, Completed), for which `executeAsyncTask` waits, and about its
--                       destructor (Shutdown, Leaving, Stopping, Joined)
--   Auth                auth.cpp
--   Compression         `compressString` of websocket_project/src/websocket_server.cpp and
--                       `decompressString` of
--                       websocket_project/websocket_client/websocket_client.cpp
--   Server              `WebSocketServer` of websocket_project/src/websocket_server.cpp;
--                       its child Listening has the event loop and `main`, and Handles the
--                       keys of the subscriptions
--   Client              `WebSocketClient` of websocket_project/websocket_client/websocket_client.cpp;
--                       its child Session has the connection and what is sent, and Delivery
--                       takes a book from the server to the console
--   Main                main.cpp
--   Probe               build/CMakeFiles/3.22.1/CompilerIdCXX/CMakeCXXCompilerId.cpp; its children
--                       Vendors, Families and Identify have the compilers, Platform and Info
--                       the rest
--   Samples             concrete libraries and a scripted world for the tests
-- Names are those of the source in snake_case: `placeOrder` is Orders.Place.place_order.
--
-- The libraries are parameters. libcurl is the record Curl.Curl: what the world answers to a
-- transfer with given options, in what pieces; its multi interface is Batch.Multi, of which
-- Batch.Gathered.IsLawful says to which transfers pieces come, and how long they are. That transfers
-- end is not in it: `settles` tests whether some call among as many as the fuel ends the loop. What
-- a write to a response that is not there does to the others is the field `wild`. zlib is Gzip.Zlib,
-- with its documented behaviour in Gzip.IsLawful: a call of `inflate` that returns Z_OK takes input
-- or gives output, and writes no more than there is room. RapidJSON and nlohmann::json are
-- Json.RapidJson and Json.Nlohmann; where a precondition of theirs does not hold, the process ends
-- (`aborts`). websocketpp is the field `send` of Server.Env, and for the client Client.Session.Line,
-- with the events that its loop meets as a list. The clock is Token.Clock. What is printed to the
-- console is left out.
--
-- A method is a function from the state of its object to an outcome and the next state. An outcome
-- is a value, an exception, the end of the process, or `hangs` where the fuel of the model is used
-- up. Fuel bounds three more loops: the rounds of `inflate`, for which more than the pending work of
-- the stream is enough, the rounds of `curl_multi_perform`, for which `settles` is the test, and the
-- depth of a JSON value, for which its size is enough. The retry loop counts down from its three
-- attempts. A mutex makes the call that holds it one step. `size_t` sums have their wrap-around
-- written out. Numbers that only pass through, prices and amounts, belong to the parameters, with
-- the text that `std::to_string` makes of them.
--
-- The order map is a list of entries with the address at which each value lies, since the
-- cancellation hands that address to the pool. The placement `new` of an order writes at the address
-- that the pool gave: a value of the map that lies there is overwritten, and where the address is
-- neither in the pool's memory nor that of such a value, it is in freed memory: the field `damage`
-- says what becomes of the map then, and `stray` lists such addresses. What else such a write may
-- destroy is not modelled.
--
-- A handle of the server is a number, and its key what `lock` makes of it: the address of the
-- connection, above 0, while that is there, and 0 for null afterwards. An entry stays under the key
-- that it was entered with, since the map keeps the hash of its keys, and a lookup by another key
-- ends at the hash.
--
-- The macros that a compiler predefines are a function of their names. A condition of the compiler
-- identification is a test on it, and a chain of conditions is a list.
--
-- Not modelled: the sockets, the log files, and the C twin of the compiler identification;
-- `LockFreeQueue` of lock_free_queue.h, whose threads read shared pointers plainly while others
-- exchange them, and whose `dequeue` reads a local before it has a value: neither has a defined
-- behaviour. The subscriptions of the server change only in whole steps, though its threads share
-- them without a lock.
pub mod Base
pub mod Text
pub mod Loans
pub mod Response
pub mod Gzip
pub mod Curl
pub mod Pool
pub mod Connection
pub mod Http
pub mod Json
pub mod Token
pub mod Samples
pub mod Orders
pub mod WaitFree
pub mod Probe
pub mod AsyncBatch
pub mod Batch
pub mod Client
pub mod Main
pub mod Server
pub mod Auth
pub mod Compression
pub mod Workers
