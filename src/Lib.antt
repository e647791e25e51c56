-- ===== src/Lib.antt =====
-- FLoM, the Free Lock Manager: the lock resources and lockers of its daemon, its messages, and its client
-- library.
--
-- A client asks the daemon for a lock on a named resource. The daemon gives each resource to a locker
-- thread, which calls the methods of the resource one at a time: `inmsg` for each message of a client,
-- `clean` when a connection ends. This library models the resources behind those methods; the state of
-- each is a record with the fields of its struct in src/flom_rsrc.h, and each method is a function of
-- the state and of a world that holds the last step of each connection and a log of what was sent.
--
-- Prelude and its children: native numbers, lists and the integers that stand for gint.
-- Rsrc/Types: return codes, lock modes, messages, lock records (src/flom_errors.h.in, src/flom_types.h,
--   src/flom_msg.h, src/flom_rsrc.h).
-- Rsrc/Env: what a resource calls: flom_msg_build_answer of src/flom_msg.c, the last step of
--   src/flom_conn.h; memory, the other message functions, the connections and the virtual file system
--   are oracles, whose outcome may depend on all that was sent and noted before.
-- Rsrc/Holders: flom_rsrc_conn_find and the removal of lock records.
-- Rsrc/Scan: the loop over the waiting queue that every resource has, literally and as a recursion.
-- Rsrc/Calls: the methods, how they end, and any sequence of calls to them.
-- Rsrc/Names: flom_rsrc_get_type, flom_rsrc_get_transactional and flom_rsrc_get_number.
-- Rsrc/Modes: the table of the lock modes.
-- Simple: src/flom_resource_simple.c. Numeric: src/flom_resource_numeric.c. Sequence:
--   src/flom_resource_sequence.c. Set: src/flom_resource_set.c. In each `can_lock`, `init`, `inmsg`,
--   `clean` and `waitings` are flom_resource_<type>_can_lock and so on, `request` is the lock verb of
--   `inmsg`, and `try_waiting` one round of the loop of `waitings`.
-- Hier: src/flom_resource_hier.c, whose names are paths. Hier/Tree has the tree and the functions that
--   walk it; the others are as for the simple resource. Only the name of the message with which a
--   connection comes is compared with that of a resource, so that a later message can name a path with
--   another root: Examples/Hier has a run in which two locks on such a path are granted.
-- Timestamp: of src/flom_resource_timestamp.c the state, the test on the clock, the deadline and the
--   interval of a format. Timestamp/Serve: its other functions; the clock is a list of readings, and
--   each test and each timestamp takes the next one.
-- Locker: how long the loop of src/flom_locker.c waits in poll.
-- Conns: the array of connections of src/flom_conns.c, and flom_conn_terminate of src/flom_conn.c.
-- Msg: the messages of src/flom_msg.c: the record, flom_msg_check_protocol, flom_msg_get_peerid and
--   flom_msg_free. Msg/Write: flom_msg_serialize and its bodies. Msg/Read: the callbacks of the XML
--   parser. Msg/Numbers: numbers in texts. Msg/Content: the documents that messages stand for.
-- Daemon: the main thread of src/flom_daemon.c and its array of lockers: `transfer`, `transfer_conn` and
--   `check_lockers` are flom_accept_loop_transfer, _transfer_conn and _chklockers, `start_rc` and
--   `new_locker` _start_locker. Daemon/Threads: the steps of the locker threads (flom_locker_loop and
--   flom_locker_loop_pollin of src/flom_locker.c) on their pipe and counters, and runs of acts of all
--   threads in any order. Daemon/Pollin: flom_accept_loop_pollin for a connection that has data, over the
--   messages of Msg, and what flom_accept_loop does with its code.
-- Config: the configuration of src/flom_config.c, its setters and flom_config_check.
-- Client: flom_client_lock and flom_client_wait_lock of src/flom_client.c, over the list of the messages
--   that arrive. Client/Blunders puts them together with the numeric resource of the daemon, and
--   Client/Ends is about a connection that fails.
-- Handle: src/flom_handle.c, the handles of an application as a state machine; the client's calls are a
--   record of functions. Handle/Setters: its setters.
-- Examples: runs on concrete data.
--
-- Bounds: the loop over the queue runs on fuel, one round for each record and one for the end, and
-- Rsrc/Scan shows that this is enough. The counter of a sequence and the index of a set wrap at 2^32.
-- Quantities are integers without a bound, and so are the counts of holders. The time-out of the locker
-- is a long that is cut to an int; the long itself has no bound.
--
-- The loop of flom_conns_clean runs on one round for each connection and one for the end, which
-- Conns/Sweep shows to be enough.
--
-- A text is a list of the codes of its bytes, and the members of the union of a message are kept apart,
-- but for those of the steps 24 and 32, which have one shape. The XML parser is the list of the events
-- it reports. The ten digits that a number is printed with are enough for an int, and the number that is
-- read is cut to an int, that of a port to 16 bits.
--
-- Of the daemon's array of connections place 0, the listening socket, is left out. A visit of the main
-- thread to one locker is one step, so are the two writes of transfer_conn and the two reads of the
-- locker. A connection that ends is marked, and each removal by flom_conns_clean is an act of its own.
-- A locker's name stands for its resource, and the comparison of names is an argument. The sequence
-- numbers and the idle periods of a locker have no bound. The scan of the incubator runs on one round for
-- each connection and one for the end, which Daemon/Working shows to be enough.
--
-- The client's calls to receive are a list; at its end the client still waits.
--
-- Not modelled: the destructors, the writing of a time in a format, what a message does to the resource
-- of a running locker (a list of calls stands for it), the daemon's processes and sockets, the virtual
-- file system beyond the notices it gets, reading of configuration files, connecting and discovery in the
-- client, getters, and the language bindings. Of the daemon: accepting, TLS, management and discovery
-- (their codes are arguments), the time-outs of its loop, and the steps of a locker in which a call of its
-- own fails. Strings of a configuration are values, so that shared and freed ones do not show. Matching by
-- regular expressions, strstr, g_strsplit, realpath and gettimeofday are arguments.
pub mod Prelude
pub mod Rsrc
pub mod Simple
pub mod Numeric
pub mod Sequence
pub mod Set
pub mod Hier
pub mod Timestamp
pub mod Locker
pub mod Conns
pub mod Msg
pub mod Daemon
pub mod Config
pub mod Client
pub mod Handle
pub mod Examples
