-- ===== src/Lib.antt =====
-- A model of the SOCKS v5 proxy of this repository, with proofs of what its parts promise.
--
-- The program. The server (src/server.c, src/server/) accepts connections and lets an event loop
-- (selector.c) call handlers for each descriptor. A connection of the proxy (socks5nio.c) is a state
-- machine (stm.c) that reads a greeting (hello.c), credentials (auth.c) and a request (request.c)
-- through byte buffers (buffer.c), answers each, connects to the origin, copies bytes both ways and lets
-- a sniffer of POP3 logins look at them (disector.c). A second protocol (monitor.c, monitornio.c) serves
-- administrators: it asks for numbers and adds or deletes users. src/client.c and src/client/ are its
-- client. Both programs take their settings from the command line (args.c, clientargs.c).
--
-- Files and code.
--   Prelude       Boolean tests, lists over the native numbers, memory as a list of bytes, C strings,
--                 the wrap of u8, u16 and u32, and the bind of Option
--   Buffer        src/server/buffer.c; Queue is reading and compaction, Stores is writing
--   Consume       the loop that hello_consume, auth_consume, request_consume and monitor_consume share;
--                 Stream relates it to the parse of a list of bytes, Invariant is induction over a parse
--   Hello         src/server/hello.c, and on_hello_method of src/server/socks5nio.c
--   Auth          src/server/auth.c
--   Request       src/server/request.c
--   Disector      src/server/disector.c; Strings is about its memory, Capture about a whole login
--   Netutils      sock_blocking_write and sock_blocking_copy of src/server/netutils.c; Progress is about a
--                 send that takes something of what it is offered; Human is sockaddr_to_human, Human.Text is
--                 about the text that it stores
--   Stm           src/server/stm.c, over any type of what the hooks and handlers change
--   Users         the table of users of src/server/socks5nio.c and the loop of auth_process; Accounts is
--                 the list of names and passwords that the table stands for
--   Monitor       src/server/monitor.c: Types, Parser and Reply are the code, Commands, Deletion
--                 and Addition are about whole requests
--   CommandLine   what args.c and clientargs.c share: the results of getopt, strtol, strchr and port; Ports
--                 is about the words that are ports
--   Args          src/server/args.c; Bounds is about every command line that is accepted
--   Client        src/client.c and src/client/: the requests and clientrequest.c. Options is clientargs.c,
--                 Response clientresponse.c and Main the loop of client.c. Wire is about the bytes of a
--                 request, Sending and Users about those of each option, Requests what the parser of the
--                 server makes of them, Response.Numbers the replies of the server as the client reads them,
--                 Main.Session a run of several requests, Service the option -u from the command line to
--                 the answer of the server
--   Admins        the table of administrators of src/server/monitornio.c; Tokens is about whom it accepts,
--                 Process is monitor_process with the server that it changes, Process.Guard what a request
--                 may change; Service is the handlers of a connection of an administrator, Service.Requests
--                 what they may change, Service.Deletions a request from its bytes to the answer,
--                 Process.Enrolment the registration of a user that it asks for;
--                 Arrivals is connection_new and monitor_passive_accept
--   Selector      the table of descriptors of src/server/selector.c; Capacity is its growth, Consistency
--                 what the table, max_fd and the two sets have to do with each other, Operations, Interests
--                 and Registration that the operations keep it, Top what max_fd is after one; Loop is handle_iteration,
--                 handle_block_notifications and selector_select, Loop.Dispatch what a round keeps;
--                 Ending is selector_destroy, Setup is selector_init, selector_close and selector_error
--   Start         the sockets that src/server.c opens and the accounts that it registers; Users is about
--                 whose credentials are accepted then, Listening is how the sockets come into the selector,
--                 Listening.Settled what it watches; Main is the whole of main, and
--                 Main.Ends how a run of it ends
--   Session       src/server/socks5nio.c: struct socks5 and what its handlers reach. Accept is
--                 socks5_new and socksv5_passive_accept, Greeting the states up to AUTH_WRITE, Requesting
--                 REQUEST_READ, REQUEST_RESOLV and request_connect, Connecting REQUEST_CONNECTING and
--                 REQUEST_WRITE, Copying the state COPY, Lifetime socks5_destroy and
--                 socksv5_done, Table the table of states and the handlers that the selector calls.
--                 Phases is an automaton of its own, after the comments of enum socks_v5state; Phase maps
--                 states to it, Returns, Attempts, Reports and Moves are about single handlers,
--                 Refinement about every event, Runs about sequences of events. Streams is recv and send on a buffer, Relay
--                 and Relayed what a copy passes on, Closing how it ends, Release what the end of a
--                 connection gives back, Retries the attempt at the next address, Settling what becomes
--                 of a new descriptor, Login the check of credentials. Greeted, Served and Asked are about the
--                 event that completes a greeting, credentials and a request (Asked what a request is met with,
--                 Asked.Whole the event), Dialogue and Dialogue.Login about the events from the first two to
--                 the answer that is sent (Drained what is sent whole), Progress about
--                 which events of a copy end. Logging is log_request, log_destination and log_credentials,
--                 Logging.Fields about a line of the log, Pool the end of both pools
--   Tests         the theorems at concrete inputs
-- Types, fields and functions have the names of the code (src/include/ holds the types). A parser is the
-- record of its struct; one byte is one call of its feed function.
--
-- Conventions. A pointer into an array is its offset, an array is the list of its bytes. A failed assert,
-- an abort, and a store outside the memory of a struct are `none`. Bytes are numbers below 256; where a
-- counter of 8, 16 or 32 bits is added to, its wrap is written out. Where the code stores outside an array
-- but inside its struct, the memory of the struct is one list (the three strings of the sniffer, the
-- union of the administration protocol). One store goes outside and is left out: the zero that
-- request.c puts in front of an empty name, which falls on a byte that is zero.
--
-- Calls of the operating system in an event of a connection have their answers in a record (Os): what recv
-- finds, of which a buffer takes what it has room for, how much send takes, the descriptor of socket, the
-- errno of connect. What getaddrinfo finds is an argument of request_resolv_blocking, which runs between
-- events. The two unions of struct socks5 are fields of their own, since a handler reads only what the
-- states of its own member have written. A second end of a block of memory is `none`. The handlers of a
-- state are the functions of the source; a part of one that has a name of its own here (open_origin,
-- conclude, copy_end, monitor_received) is a run of its lines. copy_r and copy_w are one function for each
-- end of the copy, which copy_ptr chooses.
--
-- Fuel. consume_loop has one more round than the buffer has readable bytes, and Consume.Stream shows
-- that this is enough. bit_count has one more round than its value, which has at most as many bits.
--
-- The command lines. getopt is outside the model: a command line is the list of its results, with the
-- words that argv holds from optind on when the loop ends. A call of exit is `none`, and so is a read
-- through a null pointer. inet_pton is a parameter, as are the answers of the calls that make a socket. A
-- long has 64 bits. The union of the client's request is the list of its 512 bytes. The client's buffer
-- may hold anything before the first request. The handlers that the event loop calls are parameters, with
-- what they owe to the loop in a record (Respects); send is a parameter of Netutils, with what it owes in
-- Obliging. sock_blocking_write has as much fuel as the buffer has bytes, send_chunk 4096, which is the size
-- of a chunk: every call takes a byte or ends the loop.
--
-- Text. What the log prints is a list of bytes, with the text of the date an argument; inet_ntop is a
-- parameter. An int that is printed has at most ten digits.
--
-- Not modelled. Sockets, pselect, threads and their lock, signals, printing, the clock and the logger are
-- calls of the operating system; of a signal selector_init keeps whether it is blocked and handled. The text
-- of the messages of main and of the client is left out. The values of errno are a parameter (Errno), as is
-- whether memory is found (selector_register) and what the array that monitor_process fills holds before.
pub mod Prelude
pub mod Buffer
pub mod Consume
pub mod Hello
pub mod Auth
pub mod Request
pub mod Disector
pub mod Netutils
pub mod Stm
pub mod Users
pub mod Monitor
pub mod CommandLine
pub mod Args
pub mod Client
pub mod Admins
pub mod Start
pub mod Selector
pub mod Session
pub mod Tests
