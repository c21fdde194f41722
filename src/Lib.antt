-- ===== src/Lib.antt =====
-- gss, the Generic Service Scheduler: a web server that keeps a queue of tasks, each with a time
-- budget in minutes, runs one after the other against a timer, and tells the browsers about it.
--
-- The parts and how they interact. `main` (src/gss-server/main.cpp) reads the options, starts one
-- thread for the task loop, the listener, and the I/O threads that run every handler. The listener
-- (listener.cpp) starts an HTTP session per connection; an HTTP session (http_session.cpp) serves
-- files, pushes the task of a POST to /api/tasks into the shared state, reports the queue at
-- /api/admin, and hands an upgrade to a websocket session (websocket_session.cpp), which joins the
-- shared state, broadcasts what it reads and writes what it is sent, one write at a time. The shared
-- state (shared_state.cpp) holds the sessions and the queue of tasks (Task.cpp), which is the doubly
-- linked list of src/containers/list.hpp; its `process_tasks` takes a task, waits for its timer on
-- the I/O threads, and calls itself from the timer's callback.
--
-- What models what.
--   Base: names of the libraries passed on; Boolean tests, lists, texts as bytes, exceptions.
--   Containers.Memory: `node<T>`, `new`, `delete`, and access through pointers. Undefined behaviour
--     is `fault`. Memory.Returns is total correctness: a run returns, and a postcondition holds.
--   Containers.LinkedList: `list<T>`, function by function with its names; the object, `head_` and
--     `tail_`, is passed and returned. Spec says when an object and the memory are a well-formed
--     list; Push, PopBack, PopFront, Traverse, Erase, Copy and Move have the theorems of each
--     operation; Deque states the list as a sequence of values and Deque.Refines proves it;
--     Race runs a copy with removals in between, as `tasks()` allows, which takes no mutex.
--   Containers.Queue: what the server uses of `list<task>`; Queue.LinkedQueue fills it with the
--     linked list. The server's modules take any such queue as an argument.
--   Server.Libraries: nlohmann/json and posix_time, as parameters with their documented laws.
--   Server.Task, Server.SharedState: task and shared_state, one function per member function; what
--     runs under the mutex is one function.
--     SharedState.Sessions says who receives a message, Sessions.Unordered what does not depend on
--     the order of the set, SharedState.Notices what the timer sends.
--   Server.Scheduler: the task loop with its wait and timer as a step relation; a handler needs an
--     I/O thread, and the callback holds one while it waits. Order has the order of the tasks, Progress
--     what can still happen, Termination that runs of the loop end, Posted the messages of the timers.
--   Server.WebsocketSession, Server.HttpSession, Server.Listener, Server.Ticker: handlers as
--     functions to the calls that they make; what Asio and Beast report is an argument.
--     WebsocketSession.Writes has one session's messages; HttpSession.Connection.Serving the requests
--     of one connection; HttpSession.Requests.Effect what a request is for the task loop,
--     Requests.Echoes what its answer has of it, Requests.Refused which ones get 400.
--   Server.Hub: all websocket sessions and the shared state, as one step relation whose steps run the
--     handlers and carry out their calls. Log says what a session should get, Members who is in the
--     set, Arrival, Order and Delivery what arrives, Draining that it is written, Update the way
--     of a timer's message, Effect what it is for the task loop, Lifetime what is left of a session that is gone.
--   Server.Whole: the server that `main` has started, as one step relation around one shared state:
--     the listener, all HTTP connections, the websocket sessions that upgrades make, the task loop and
--     the end of the program by an exception or a signal; Steps has the relation, Winding what goes on
--     after a signal. Posts, Told and Loop see it as
--     Server.Scheduler, Calls, Forget, Known, Timer and Sessions as Server.Hub; Updates, Arrival and
--     Queued have the way of the updates, Still and Progress how it gets done with its tasks,
--     Connections the requests and answers of each connection, Answering one request, Threads what
--     the number of I/O threads decides, Ends which handlers raise, Ends.Causes what ends it, Shutdown
--     whether `main` comes back after a signal.
--   Server.Main: the options, the number of threads, and how `main` ends. Main.Escape is what an
--     exception in a handler does to the program, Escape.Posts and Reads which requests and
--     which messages raise one.
--   Fuzz: `sum_values` of fuzz_test/fuzz_tester.cpp.
--   Tests: small instances of the libraries, and the theorems at concrete inputs.
--
-- Bounds and fuel. A loop over a list is given as many rounds as addresses were ever handed out;
-- IsList.room says that a well-formed list is shorter, and the theorems prove that the loops end.
-- `size_t` counts modulo 2^64, so the theorems on `size` and on the wait bound the length. An `int`
-- number of minutes is below 2^31. `threads - 1` is defined for every `int` but the least.
--
-- Not modelled. src/router is a copy of Boost.URL's example router, of which the program only
-- passes a pointer. The log lines, the web page, the build files and the unit tests have no state.
-- The postfix `operator++` and `operator->` of the iterator are used nowhere. The threads that
-- `main` joins are told in Whole.Winding only by the callback that can hold one, and a handler of an
-- HTTP session that is called before a signal has run to its end before it. That the detached
-- thread of the task loop may outlive what it uses, when `main` returns, is left out. Of what is
-- read without the mutex only the copy in `tasks()` is modelled, and not the reads of `current()`
-- and `uid()`. A handler that raises ends the program, so it is no step of Server.Hub, but one of
-- Server.Whole. A step of Server.Whole needs an I/O thread that the task loop does not hold; that
-- the handlers of several sessions hold one each while they post is left out, so that it has more
-- runs than the program. The handler of an HTTP session is one step, so the order in which requests
-- are read is that in which their handlers take effect.
pub mod Base
pub mod Containers
pub mod Server
pub mod Fuzz
pub mod Tests
