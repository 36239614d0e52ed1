-- ===== src/Lib.antt =====
-- Plug-ins for the Shadow simulator that eavesdrop on Tor: models of their C code.
--
-- The parts of the program and how they interact. A client of tropeaproxy/tproxy.c reaches its
-- server through the transparent proxy, which relays bytes between the two ends of a connection
-- and, for each new connection, sends a datagram with its side, its host and the time to a
-- logger. loggerserver/loggerserver.c appends such datagrams to a file; analyzer/analyzer.c is
-- another copy of the same program. autosys/autosys.c is a copy of the transparent proxy for the
-- border of an autonomous system. simpletcp/simpletcp.c makes the traffic: a client that reaches
-- a server through a SOCKS5 proxy, again and again, and a server that logs each visit. All of
-- them are driven by events: `..._ready` asks epoll which descriptors are ready and calls a
-- handler for each. Each program runs under a `main` of its own, or is a plug-in of the Shadow
-- simulator, which starts it, notifies it of events and frees it.
--
-- The files.
-- - Base: names of the libraries, Boolean tests, lists, signed integers.
-- - Sys: the calls to the kernel and what it answers. `M S A` is a function on a state `S` that
--   returns an `A`, leaves the process, or does what C forbids, and leaves the list of its
--   calls, the last one first. The kernel is a parameter: a record of functions that answer each
--   call, given all calls before it, so that it may behave in any way. Sys/Ends is about how a
--   run ends, Sys/Simulation about programs that do the same on two types of states.
-- - Glib: the hash table from `gint` keys, a parameter with the laws that GLib documents.
-- - Format: `%ld%06ld\n` of a time. Format/Stamp reads it back.
-- - Resolve: `dnsQuery` and the ports of the arguments, which the programs share. The functions
--   of the C library on strings are parameters.
-- - Host: what runs a program, by the four functions that both use. Main is the `main` of the
--   programs, with what they wait for and what they do after a turn as parameters; Plugin has
--   the functions of a plug-in. Turns and Notices are about what a program keeps through its
--   life, Simulated about two programs that do the same, Fuel about the number of turns.
-- - TProxy: tropeaproxy/tproxy.c. State is `struct _TProxy` with the memory of the partners by
--   address; Buffers the blocks of memory, Epoll `setEPOLL` and `resetEPOLL`, Package
--   `buildTracePackage` and `udpTrace`, Handlers all handlers from `closeConnections` to
--   `tproxy_ready`, named as in the source. Relay, Exchange and Conversation follow a message
--   across the proxy; Invariant and Safety are about all runs; Peers is an abstract table of
--   connections and Refinement how the handlers implement it; Touches is about the descriptors
--   that are closed, read and written, Watching is about what epoll is asked for, Flow follows
--   `main` on such an epoll from its arguments through a connection; Closing and Orphans are
--   about connections that end; Startup has `tproxy_new`, `tproxy_free` and `main`, and Lifetime
--   what follows from them; Duplex is about both directions at once; Tracing about the datagram;
--   Scenarios and Runs have runs.
-- - SimpleTcp: simpletcp/simpletcp.c. State, Packets, Starting (`startClient`, `startServer` and
--   the callback), Client, Server and Loop have the definitions, Arguments has `checkClientArgs`
--   and New has `simpletcp_new`. What `createCallback` does is a parameter of the handlers: the
--   simulator takes a note of it (`requested`), simpletcp/simpletcp-main.c sleeps and calls at
--   once (Standalone). Status, Handshake, Speeches and Rounds are about the client, Started
--   about a client from its arguments on, Budget about its sleeps on any kernel, Leak about a
--   client that is not made, Logging and Visitors about the server and its log; Standalone has
--   `main` and below it Turns, Rounds, Start and Main follow a client through it; Examples,
--   Standalone/Runs and Visitors/Runs have runs.
-- - AutoSys: autosys/autosys.c. State, Package, Handlers, Startup and Plugin have the
--   definitions; Same and SameStart are about the program beside the transparent proxy, Hosted
--   about it as a plug-in; Examples has runs.
-- - Logger: LoggerServer and Analyzer have the handlers, LoggerStart and AnalyzerStart the start
--   and `main`, AnalyzerPlugin analyzer/analyzer-plugin.c. File says what the calls and the
--   answers of the kernel make of a file at a path; Journal, Kept, Life and AnalyzerLife are
--   about the log file, Receiving about a logger to which messages come, Path about the copy of
--   the name of the file, Same about the two programs; Runs has runs.
-- - Network: the transparent proxy and the logger together; Network/Runs has a run.
-- - Samples: kernels and functions on strings for the runs.
--
-- How C is read. An `int` from the kernel is its 32-bit pattern, so -1 is 2^32 - 1; an `ssize_t`
-- is a signed integer. A block of memory is its list of bytes, a pointer to one is null, in use
-- or freed, and a second `free`, a read or a write past the end, a string without its end, a
-- division by zero and a failed assertion end a run with a fault. `g_new0` and the `calloc` of a
-- whole state do not fail; other `calloc`, `malloc` and `realloc` may. The host is
-- little-endian. Calls that only print (`slogf`, `printf`, `perror`) have no part in the models,
-- nor has the `free` of a whole state. Assertions are read as in the default build; a build of
-- the type Release defines NDEBUG, which takes them out (CMakeLists.txt). A file is what was
-- appended to it: what a descriptor that was not opened to append to a file makes of it is not
-- followed, and its contents are then unknown.
--
-- Bounds and fuel. Only the printing of a number runs on fuel, one more than the number itself,
-- and a number has no more digits than that. The event loops are structural on the list of
-- events, and the loop of `main` is followed for any number of turns; a `main` that is still in
-- its loop then has the result `none`.
--
-- Not modelled: what the simulator answers to the registration of a plug-in, which is only
-- printed; `_simpletcp_clientRecvMsg`, which nothing calls;
-- signals, since their handler only leaves the process; the scripts in tools.
pub mod Base
pub mod Sys
pub mod Glib
pub mod Format
pub mod Resolve
pub mod Samples
pub mod TProxy
pub mod SimpleTcp
pub mod Host
pub mod AutoSys
pub mod Logger
pub mod Network
