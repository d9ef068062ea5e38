-- ===== src/Lib.antt =====
-- cofetch: a model of the asynchronous HTTP client of include/cofetch.h, which drives libcurl's multi
-- interface from an asio io_context.
--
-- The parts of the program and their files:
--
-- - Response.antt, Response/Case, Response/Fields: class Response and the namespace detail, with
--   CiHash, CiEqual, for_each_field, trim, headers and header. Response/Views has the searches of
--   std::string_view that they call. Response/Lines describes a header block line by line.
-- - Request.antt, Request/Builder: class Request, Client::RequestBuilder, Client::async_get and
--   Client::async_post.
-- - Transfers.antt, Transfers/Handle, Transfers/Operations, Transfers/Callbacks: Client::Transfer
--   with Client::start, cancel, fail, retire, configure_handle, set_body, header_cb, body_write_cb
--   and one round of Client::check_completions. Transfers/Invariant and Transfers/Reach are about
--   the sequences of these operations, Transfers/Completions about the handlers, Transfers/Outcomes
--   about what they get, Transfers/Starts about what libcurl's answers do to a start, and
--   Transfers/Lists about the header lists. Transfers/Errors has curl_category and the error codes
--   of completions.
-- - Timers.antt: Client::timer_cb, kick, the handler of a posted kick and that of the timer's wait.
-- - Sockets.antt: Client::SocketState, open_socket_cb, close_socket_cb, borrow, socket_cb, arm and
--   on_event. Sockets/Waits has on_event and the lambdas of arm, Sockets/Events sequences of
--   libcurl's callbacks, Sockets/Runs those with the waits' handlers between them, and
--   Sockets/Owned, Given and Kept the descriptors that asio holds along such a run. Sockets/Interest
--   has the waits behind socket_cb.
-- - Client.antt: Client::~Client, the loop of Client::check_completions and the callback in a
--   handler's cancellation slot. A client is a record of the three states before. Client/Calls has
--   the posted kick and the handlers of the timer and of the sockets as a whole, with all that
--   libcurl calls back and all that handlers do in them; Client/System is the client and the queue
--   of the io_context as a state machine, up to the client's end; Client/Once is about its states.
--   Client/Sane and Client/Gone have what holds before and behind the destructor, and Client/Severed
--   what it does to the sockets. Client/Globals has curl_global_init and curl_global_cleanup under
--   global_mutex, with clients on any number of threads.
-- - Baseline.antt, Baseline/Requests, Baseline/Polls: class Http of bench/baseline/http_epoll.h, the
--   epoll client that the benchmark compares with: socket_fn, request, the builder, write_fn, submit
--   and process_events, and then multi_info_read and poll with what the callbacks call.
--   Baseline/Lifetime has the constructor and the destructor. Baseline/Watched and Baseline/Served
--   are about sequences of these, Baseline/Kept about one call and Baseline/Reactions about the
--   calls of a callback.
-- - Bench.antt: the drivers in bench/: Args and parse of bench_util.h. Bench/Throughput has the
--   lambda refill of bench_epoll.cpp and of run_throughput in bench_cofetch.cpp, Bench/Polled the
--   loops that poll until all are done, Bench/Shares the split over several event loops, Bench/Chain
--   the chains with callbacks and with a coroutine, Bench/Report the rows and main of bench_cpr.cpp
--   and bench_httplib.cpp, which Bench/Cells and Bench/Rows read again, and Bench/Pool the threads
--   of bench_cpr.cpp and bench_httplib.cpp in any interleaving.
-- - Examples.antt: Examples/Programs has what the programs in examples/ have in common,
--   Examples/Shown what most of them request and print, and Examples/Coroutines those that are
--   coroutines; Examples/Launched and Examples/Said are about these. Examples/Reactors has
--   example_reactors.cpp, and Examples/Drained is about its modes; Examples/Sync has class
--   SyncClient of example_sync.cpp, and Examples/Settled is about its calls. Examples/Answered finds
--   the completion of one request, and Examples/Unique counts those of one handler.
-- - Base/Threads: threads over a shared state, for Client/Globals and Bench/Pool.
--
-- A byte is a natural number below 256 and a string a list of them. Numbers that may be negative are ℤ.
-- An id counts modulo 2 ^ 64. What std::size_t counts is never near its bound and has no modulus, but
-- the hash of a header name wraps around at 2 ^ 64.
--
-- What libcurl, asio and the system answer is an argument of the operation that asks: the handle of
-- curl_easy_init, the code of curl_multi_add_handle, the descriptors of open and dup, the messages of
-- curl_multi_info_read. What is asked of them is written to a list of calls, the newest call first.
-- Posted and delivered completions are such lists too. An easy handle is a number with the list of the
-- options set on it; the last value set for an option is in force. A transfer is found by its easy
-- handle where the source passes a pointer to it, a socket's state by an address. A curl hook is the
-- list of the options that it sets. A handler is a name, with the fact whether its cancellation slot is
-- connected.
--
-- A handler that runs in check_completions may call the client again. `check_completions` takes what it
-- does as a function of the transfers; sequences of operations have it as further operations between
-- two rounds. In the same way on_event takes what curl_multi_socket_action does to the sockets, which
-- Sockets/Runs lets be any sequence of callbacks. In Examples `io_context::run` and
-- `io_context::poll` are functions on a client and its io_context.
--
-- The loop of for_each_field runs on fuel, which is the length of the header data: each round moves
-- the position up by one at least, and the description by lines in Response/Lines has no fuel. The
-- loop of refill in Bench/Throughput runs on fuel too, which is the concurrency: each round brings
-- one request more in flight, up to the concurrency. The loops of example_reactors.cpp and those in
-- Bench/Polled run on fuel, which is to be as many polls as bring all answers.
--
-- What libcurl and the system promise stands in hypotheses: curl_easy_init gives no handle that is in
-- use, and libcurl hands back only socket states that it was given. What the system opens or dups is no
-- descriptor that is open already (Honest in Sockets/Given). Ids are not to wrap around: a client starts
-- fewer than 2 ^ 64 transfers.
--
-- Not modelled: curl_easy_strerror, printf's texts of numbers and the text of other error codes,
-- which are arguments where they are used; the options of cofetch's multi handle; completion tokens
-- and asio::cancel_after (asio); reserved string capacity; the Windows branch of borrow; of the
-- drivers the clocks, main of bench_cofetch.cpp and bench_epoll.cpp around their scenarios and the
-- sessions of cpr and cpp-httplib; the epoll instance of example_reactors; and the tests.
mod Base
pub mod Response
pub mod Request
pub mod Transfers
pub mod Timers
pub mod Sockets
pub mod Client
pub mod Baseline
pub mod Bench
pub mod Examples
mod Tests
