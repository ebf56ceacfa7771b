-- ===== src/Lib.antt =====
-- TimeTracker: a model of the Rust program under time_tracker/src, and what is proved of it.
--
-- The program watches which of the registered processes run, counts how long each of them runs and
-- how often it is started, and serves the numbers to clients over a websocket. A check loop
-- (time_tracker/src/time_tracking.rs) asks the process table every few seconds and starts a tracking
-- thread for each process that began to run. Tracking threads send events to an event loop
-- (seaorm_client.rs), which updates the database. Clients ask for changes of the apps and of the
-- checkpoints (seaorm_queries.rs), and get broadcasts for the topics that they subscribed to
-- (websocket/).
--
-- The files, and the parts of time_tracker/src that they model:
--   Common       helpers: tests, lists, results, 32-bit words, maps
--   Json, Text   what the program uses of serde_json values and of decimal texts
--   Entities     entities/*.rs, the rows of the four tables
--   Structs      structs.rs, the values that are sent to clients
--   Store        migration/*.rs: the tables and their foreign keys. Store.Engine is the interface of
--                the calls of SeaORM, Store.Monad the functions that talk to the database,
--                Store.Codec the derived serialization, Store.Memory a database that is lawful
--   Queries      seaorm_queries.rs: the checkpoints, the aliases of an app, session counts, the timeline
--   Events       seaorm_client.rs: handle_longest_session, handle_duration, handle_launches,
--                handle_timeline and what they call, put_data, delete_data, get_processes
--   OneActive    the invariant of the checkpoints over all of these operations
--   Processes    linux.rs: ux_are_processes_running; Processes.Windows windows.rs: nt_are_processes_running
--   Tracker      time_tracking.rs: check_processes, the tracking threads of init, pause; Tracker.Totals the
--                threads and the event loop together
--   Registry     time_tracking.rs: add_process, delete_process and the start of init
--   Aliases      seaorm_queries.rs: the queries that build maps of aliases
--   Messages     structs.rs: WebSocketMessage and WebSocketCommand
--   Rows         structs.rs: from_pg_row; websocket/handlers.rs: json_value_to_string, convert_json_rows
--   Handlers     websocket/handlers.rs: the requests to subscribe and to unsubscribe
--   Requests     websocket/handlers.rs: reading a request, all other handlers, and
--                handle_message_with_client_id (Requests.Dispatch); Requests.Connection
--                websocket/client.rs: handle_connection and handle_client_messages
--   Rpc          rpc.rs: the methods of the JSON-RPC server
--   CommandLine  main.rs and args.rs: the url of the database, handle_client
--   BroadcastLog websocket/broadcast_logger.rs: the lines of the log
--   Statistics   websocket/handlers.rs: calculate_duration_statistics
--   Websocket    websocket/broadcast.rs, server.rs and client.rs: clients, subscriptions, broadcasts
--   Tests        the theorems at concrete inputs
--
-- How the code is modelled:
--   - An `i32` is its bit pattern below 2 ^ 32, and sums wrap as in a release build. A date is a number
--     of days and a time stamp a number of nanoseconds, both from the first one of the calendar.
--     Readings of the clock are arguments.
--   - SeaORM and the database server are the parameter `Engine`. Any call may fail. `Lawful` is what is
--     promised of a call that succeeds: a select gives the rows that pass its filter in the order asked
--     for, an insert adds a row under a fresh key that passes the unique index, an update changes the rows with a key, a delete removes
--     rows and follows the foreign keys. `Reliable` adds that reads answer, and that an update of a row
--     that is there, which leaves keys and references alone, and an insert under a fresh key with known
--     references, which passes the unique index, succeed. A function that fails
--     keeps what it wrote before, and runs to its end before another one writes. Rows without a time stamp come last
--     in a descending order, as in SQLite.
--   - The serialization that serde derives is the parameter `Codec`, and `Printer` for messages;
--     `Reader` is serde_json as a parser, and `Calendar` the dates of chrono. Of an error of serde the text is
--     not modelled. An average of durations stays a ratio of two numbers.
--   - A request runs to its end before another one begins. `Service` is what it can read and change.
--     A connection is modelled by the rounds of its loop: what the socket gave and which sends went through.
--   - A `HashMap` is an association list, in which no key stands twice, as in the map; no result depends on its order but the order of a list of
--     processes to start. The process table of the operating system is an argument.
--   - The process map, the spawn channel and the threads are one shared state. A step is what a thread
--     does under one hold of the lock or between two sleeps, so every interleaving is a sequence of
--     steps. The deletion of a process that a thread tracks is not among these steps. A
--     panic is the result `none`.
--   - Locks are never poisoned, and a channel's other end is gone only where the model says so.
--   - Decimal printing goes through at most ten digits for an `i32` and twenty for an `i64`, which they never
--     exceed. Every other loop
--     is recursion over the list that the code iterates over.
--
-- Not modelled: sockets, the HTTP server under rpc.rs, the set-up of logging, hook.rs, the foreground
-- window, the tray and the autostart of linux.rs and windows.rs, and firebase.rs, a client of another service behind a
-- feature. These are calls of the system and of libraries.
pub mod Common
pub mod Json
pub mod Entities
pub mod Structs
pub mod Text
pub mod Store
pub mod Processes
pub mod Queries
pub mod Events
pub mod OneActive
pub mod Tracker
pub mod Registry
pub mod Requests
pub mod Rpc
pub mod CommandLine
pub mod BroadcastLog
pub mod Aliases
pub mod Statistics
pub mod Websocket
pub mod Messages
pub mod Rows
pub mod Handlers
mod Tests
