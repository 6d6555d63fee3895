-- ===== src/Lib.antt =====
-- EventEdge, an asynchronous HTTP reverse proxy in C++: a verification library of its logic.
--
-- The program accepts connections, answers /health and /metrics itself, and sends other requests to
-- one of a list of upstreams. A session asks the response cache first; on a miss the coalescer lets
-- one request lead and the others wait; the leader takes an upstream from the pool and hands the
-- request to a proxy. A monitor marks upstreams healthy or not.
--
-- Upstream models include/eventedge/upstream_config.hpp: `UpstreamPool` is a record of backends and
--   a turn, and its methods are functions of their names.
-- Cache models include/eventedge/response_cache.hpp and src/response_cache.cpp. Cache/Store has the
--   code with list nodes at addresses, Cache/Spec the list of items that it stands for.
-- Coalescer models include/eventedge/request_coalescer.hpp and src/request_coalescer.cpp.
-- Args models the parsing of arguments in src/main.cpp, Decimal the standard library's
--   `std::to_string` and `std::from_chars` as far as the code uses them.
-- Http has the messages of include/eventedge/http_handler.hpp: their scalar parts are fields of a
--   record, and the header fields with what Boost.Beast does to them are the parameter `Beast`. Its
--   `prepare_payload` throws for a TRACE request with a body, and only then.
-- Handler models src/http_handler.cpp.
-- Proxy models src/upstream_proxy.cpp: Proxy/Host the Host field, Proxy/Tokens and Proxy/Headers the
--   removal of hop-by-hop fields, Proxy/Machine the class. Each of its handlers gives the new state
--   and a list of what it does to the world; an event calls the handler of the operation that is
--   outstanding. Proxy/Once follows the completion handler, Proxy/Stripping has what a token is, and
--   Proxy/Dropped which fields are dropped.
-- Metrics models src/metrics.cpp: Metrics/Registry has the methods, Metrics/Render the text, Metrics/
--   Counts a history of calls. Counters wrap at 2^64; how a double is printed is the parameter `Printer`.
-- Session models src/http_session.cpp: Session/Objects has the state, Session/Routing the handlers, each
--   with the objects of Upstream, Cache, Coalescer and Metrics that sessions share. `on_read` is split at
--   its branches; a callback is the number of the session that it answers. Session/Storing describes
--   the responses that may be stored, Session/Traces the requests that no proxy can be made for.
-- Monitor models src/upstream_health_monitor.cpp: Monitor/Check has one check, Monitor/Rounds the monitor
--   with the checks that it has started. A history is a list of the handlers that the strand runs.
-- Server models src/http_server.cpp: whether a call of the acceptor fails is an argument, and a history
--   is a list of accept handlers and stops.
-- Service puts sessions together: Service/World has all of them with what they share and the handlers
--   still to be called, which a history calls in any order, with marks of the monitor in between;
--   Service/Counts counts what each session has to come.
-- Parallel has the handlers of sessions as several workers run them: Parallel/State cuts `on_read`,
--   the completion handler of a proxy and `complete_flight` at their calls of the cache, the pool and
--   the coalescer, and a history runs any part next; Parallel/View reads the parts as work of Service.
-- Main models `main` of src/main.cpp: what it puts together from the arguments, what a
--   signal stops, and in Main/Workers the start of the threads and the exit code.
-- System is the program while it serves: System/State has the objects of `main` with every session,
--   proxy and check under way, and a history calls the handler of any operation next, until a signal
--   stops the context. System/View forgets what a proxy has done so far, which gives a state of
--   Service; System/Sound is what all handlers keep, System/Refines, System/Turns and System/Arrivals
--   have one lemma for each kind of handler.
-- Base has the shared names, texts as byte lists, association lists for the maps of the program, and
--   `Outcome`: a call returns, throws, or is undefined, where C++ leaves it so.
--
-- A method under a mutex is one step, so threads are histories: lists of calls in the order in which
-- the mutex lets them in. The clock's reading is an argument; times and sizes are natural numbers
-- that do not overflow, ports are reduced to 16 bits where the code casts. The loop of `select` is a
-- recursion on the turns left, of which there are as many as backends; `to_string` recurs on the
-- number, which falls. The loop over the tokens of a Connection field has one round more than the
-- field has bytes as fuel, and each round moves on by a byte at least. No other fuel is used.
--
-- In Service and System a handler is one step, in Parallel it has a step for each call of an object
-- under a mutex. There the end of a flight is one step with the tasks that its waiters post, the
-- counters that a part adds to are added with it, and the text of /metrics is read at one time. A
-- handler that starts a proxy runs it, and throws when that throws. The worker would then stop the I/O
-- context, so the histories of the three are of requests that are not a TRACE with a body.
--
-- Not modelled: sockets, timers and threads, which are Boost.Asio and the C++ runtime, and the log.
-- Whether a call of theirs fails is an argument.
pub mod Base
pub mod Upstream
pub mod Cache
pub mod Coalescer
pub mod Decimal
pub mod Args
pub mod Proxy
pub mod Metrics
pub mod Session
pub mod Monitor
pub mod Server
pub mod Main
pub mod Service
pub mod Parallel
pub mod System
pub mod Http
pub mod Handler
