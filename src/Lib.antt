-- ===== src/Lib.antt =====
-- A model of the SecureFile Vault server (C, in src/ and include/), in its two builds
-- `-DVULNERABLE` and `-DFIXED`, which are the two values of `Build`.
--
-- The program. A client sends messages of a header of 14 bytes and a payload. `handle_client` in
-- src/main.c reads them off a socket, cuts the stream into messages with `parse_message`, and hands
-- each to `proto_dispatch` (both in src/protocol.c), which looks up the session (src/session.c),
-- checks a log-in (src/auth.c), stores, reads, deletes and lists files (src/file_handler.c) or runs
-- a backup (src/config.c), and builds the answer with `serialize_response`. src/network.c accepts,
-- writes to and closes connections.
--
-- The files. Functions keep the names of the source.
--   Base          tests, lists, big-endian words and C strings
--   Common        include/common.h and the codes of include/protocol.h
--   Protocol      src/protocol.c: Parse is about `parse_message`, RoundTrip about both directions
--   Server        src/main.c, the loops of `handle_client`; the dispatcher is a parameter. Framing is
--                 about one run of the message loop, Stream about a buffer of whole messages,
--                 Receive about one `recv`, Ends about the end of the loop over `recv`,
--                 Guarded about what a dispatcher keeps
--   Session       src/session.c and its table; Token is `generate_token`; Invariant says when a
--                 table is in order, Array is about taking out a slot, Opened about a new
--                 session, View about the table as a function from ids to sessions and about
--                 sequences of operations, and the others take the operations one by one
--   Auth          src/auth.c: Hash, Users (the table) and Verify
--   Network       src/network.c: Close, Accept and Write
--   Config        src/config.c: Lines is about what one line of the file defines, File about the whole file
--   FileHandler   src/file_handler.c: Store, Retrieve (and delete) and Listing; Disk runs the operations
--                 on a disk, which has its files and directories by their canonical paths; only directories
--                 may be links there, no permission is refused, and there is room
--   Logger        src/logger.c
--   Dispatch      `proto_dispatch` of src/protocol.c: State is what it works on, Handlers the cases of
--                 its switch; Gate is about the session a request needs, Table about the session
--                 table, Login about the session a log-in opens and LoginReply about the id in its
--                 reply, Confined about files, Frame
--                 about what a request leaves alone, Responses about the answers to a buffer of
--                 messages, FileRequests about the requests for files and Transfer about an upload and a
--                 download; Threads is a request among other threads: Gate is about what it has
--                 passed whatever they do, Quiet about no other thread, Windows about where they
--                 may act, and Races about what they can do to it
--   Main          src/main.c: `handle_client` as a whole, Options and Begin the arguments, Clients
--                 one client from its first byte to the close, Steps the server as a state
--                 machine, Closing one round of its end and Shutdown the whole
--   Demos         the programs of vulnerable/ and fixed/, one module for each weakness: Overflow (01),
--                 Logging (02), Lifetime (03), Release (04), Storing (05), Input (06), Command (07),
--                 Traversal (08), Tokens (09) and Hashing (10), each with its `main`; Runs of Lifetime and
--                 of Release are about these
--   Tests         the programs of tests/: Auth, Protocol, Files, Security and the Runner
--   Examples      concrete inputs: the theorems applied, and runs of the code
--
-- State. Memory is a list of bytes from the pointer on. Sessions and connections are objects on a heap
-- of addresses, where freed memory keeps its contents and every access to it, every access
-- through NULL and every second free is recorded in a list of faults, at the place where it
-- happens. What C does after a fault is undefined; the model goes on with the old contents. What
-- `auth_hash_password` writes behind its buffer of 64 bytes is taken to be readable behind it.
-- Reads of the clock, `rand`, `/dev/urandom`, the
-- allocator, the sockets and the file system come in as arguments; OpenSSL's PBKDF2, `atoi` and
-- `realpath` are parameters, as are SHA-256 and `vprintf` in the stand-alone programs.
--
-- Bounds. 16-bit and 32-bit quantities of the wire are read and written modulo 2 ^ 16 and 2 ^ 32, and
-- the sums that the source makes in uint32_t and size_t wrap as they do there. Loops over an array
-- recurse on the rounds left, which the source's bounds give; the message loop recurses on fuel,
-- since the loop of the source has no bound of its own: 4110 rounds are enough for a full buffer of
-- 4096 bytes with what a round leaves, unless a length wraps to 0.
--
-- Threads. A function that takes a mutex is one step, and so is a request as Dispatch has it.
-- `handle_among` of Dispatch/Threads has the same request with the four places in which it holds a slot
-- or a pointer of the session table and no mutex: behind the unlock of `session_lookup`, in front of
-- the search of `session_validate`, behind its unlock, and in front of the switch. What the other
-- threads do there is any function of the state.
--
-- Not modelled. The loop of `network_write` is in Network/Write; a served message only records what is
-- passed to it. A backup whose `fork` fails is counted as a command that was run. The log lines of the other modules (their arguments are, where they read freed memory),
-- signals and the creation of threads, and what the stand-alone programs and the tests print.
-- vulnerable/10_hardcoded_key.c does not compile, since its comments swallow a definition and the
-- head of a function. What other threads do inside the switch, behind the first access to the session,
-- is not modelled.
pub mod Base
pub mod Common
pub mod Protocol
pub mod Session
pub mod Auth
pub mod Network
pub mod Server
pub mod Config
pub mod FileHandler
pub mod Logger
pub mod Dispatch
pub mod Main
pub mod Demos
pub mod Tests
pub mod Examples
