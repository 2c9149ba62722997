-- ===== src/Lib.antt =====
-- Employee database: a database file of employees, a command-line tool that edits it, and a server
-- and a client that do the same over a socket.
--
-- The programs share src/parse.c (the text of an employee, the edits of the array), src/serialize.c
-- (the database file) and src/proto.c (requests and responses). The client turns its command line
-- into the options of one request; the server carries them out on its array of employees, saves the
-- array after each edit, and answers with a flag and, if asked, the list of employees. This library
-- models these three files, the connection map of src/models.c, and the three programs from their
-- options on: the command-line tool, the client, and the server with its loop over the descriptors
-- of its clients. A connection to the server goes from UNINITIALIZED through the handshake to
-- INITIALIZED, and through REQUEST back to it with each request.
--
--   Prelude         names, Boolean tests and list lemmas that the other files share
--   Memory          blocks of bytes, loads, stores, realloc, C strings, network order
--   Models          include/models.h: message types, client states, connections, and
--                   the first functions of src/models.c
--   Employee        include/common.h: the structs, and the abstract directory
--   Parse           src/parse.c: one definition per function, under the function's name
--   Proto           src/proto.c: resize_buffer (Buffer), the options of a request (Options), the
--                   list response (Listing)
--   Disk            the file behind its descriptor, and the system calls on it
--   Serialize       src/serialize.c: one definition per function; load_db is what
--                   executable_src/cli/cli.c and executable_src/server/server.c do with an open file
--   Request         deserialize_request_options of src/proto.c, in stages
--   Socket          send_all and receive_all of src/proto.c, on a connected socket
--   Connections     src/models.c: the map from descriptors to connections; its chains (Entries,
--                   Spreads, Chains, Search), its use as a finite map and its growth (Refines), and
--                   removal (Corrupt)
--   Server          executable_src/server/server.c: the turn of one client in main's loop, and the
--                   functions that it calls, each under its name (Server); what holds of a
--                   connection (Connection, Reach); how a request in pieces comes to its answer
--                   (Answers); another protocol version (Version); the polled
--                   descriptors, and how clients come and go (Clients); what a turn leaves
--                   as it was (Keeps); the whole server, with main's loop over the descriptors (Loop);
--                   main up to its loop (Setup)
--   Startup         what the three mains share: the answers of getopt, the protocol version
--                   (Versions), the database file (Files)
--   Cli             executable_src/cli/cli.c: main, its options and file (Setup), its edits
--                   (Steps, Edited)
--   Client          executable_src/client/client.c: main, its options and socket (Setup); the request
--                   that it builds (Build), what the server makes of it (Session), and what it
--                   makes of the response (Converses)
--   Exchange        a client against the server
--   Tests           the models on concrete inputs
--
-- Conventions. A pointer into an allocation is the block of bytes from there to its end, or an
-- offset into a block; an access outside a block, or through a null pointer, is the result `fault`,
-- and `crash` in a function on the file. STATUS_ERROR is `error`, and `failed` with the file that
-- it leaves. A cell of a block is a natural number, and every value that the code stores through
-- be16 or be32 is a byte. The host is little-endian, so that `htons` and `htonl` change the order;
-- the model keeps integers as numbers and their stored form in network order. Integers wrap where
-- the code lets them: 16 bits for the lengths of the format, 32 bits for counts and sizes of the
-- header, 64 bits for `size_t`. Lengths that the code passes through an `int` are taken to be below
-- 2 ^ 31.
--
-- An Allocator decides whether `realloc` to a size succeeds and what fresh memory holds; a `malloc`
-- whose result the code does not test succeeds. Freed memory is modelled in the connection map,
-- whose nodes and connections are cells that are there or not, with addresses that are never used
-- again. The deletion of the command-line tool frees strings, which is undefined for those that are
-- parts of the command line: the array's elements whose strings were allocated are counted
-- (Variables.allocated). Elsewhere freeing is left out. The comparison of the map's load with
-- `alpha`, on floating-point numbers, is a parameter. `strtok` and `strtol` follow the C standard
-- on ASCII text. The operating system's part in the calls on the file is a script: each call takes
-- an entry, which says how many bytes it transfers at most, or that it returns -1; behind the
-- script's end every call succeeds in full, and a `write` that succeeds transfers a byte at least.
-- A socket has such a script for `send`, and for `recv` the list of what arrives: some bytes, one
-- at least, or an error; behind the list's end the peer has closed the connection. The listener,
-- the other clients and their turns are, for one client, changes of the employees, the header and
-- the file between its turns.
--
-- The loop of deserialize_list_employee_response runs on fuel, one round more than the response has
-- bytes: a round reads 8 bytes at least. The loop of receive_all runs on as much fuel as the bytes
-- asked for: a round receives a byte at least. The loops along a chain of the connection map run on
-- as much fuel as nodes were made: a longer walk comes to a node twice and never ends, which counts
-- as a fault. The fuel of a round of the server's loop bounds its places: two units more than there
-- are descriptors are enough, since a round accepts one client at most. All other loops are
-- structural.
--
-- The answers of `getopt`, `getaddrinfo`, `socket`, `bind`, `connect` and their like are arguments
-- of the three mains, and so is what a file's name stands for. So is whether `close` of the
-- client's socket succeeds; the programs close no other descriptor but those of
-- get_listener_socket. A part of main that exits or aborts, or ends in undefined behaviour, is a
-- value of its own (Started).
--
-- Not modelled: messages to the terminal, and a failure of `poll` itself, on which the server
-- exits. What the array holds after a step on it has failed is left out too: after such a failure
-- the programs exit, but for the server where a name to update or delete is missing, which changes
-- nothing.
pub mod Prelude
pub mod Memory
pub mod Models
pub mod Employee
pub mod Parse
pub mod Proto
pub mod Disk
pub mod Serialize
pub mod Socket
pub mod Startup
pub mod Request
pub mod Connections
pub mod Server
pub mod Cli
pub mod Client
pub mod Exchange
pub mod Tests
