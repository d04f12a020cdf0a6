-- ===== src/Lib.antt =====
-- aspr1net is a small client and server over TCP: an event loop in the manner of the ae library of
-- Redis (ae.hpp, ae.cpp) with epoll behind it (ae_epoll.hpp), a layer over sockets (anet.cpp), a
-- growing buffer for length-prefixed packages (buffer.hpp, buffer.cpp, package.hpp), a splitter of
-- command lines (arguments.hpp), and a client and a server that put them together. The server waits
-- for its descriptors in the event loop, whose procedures read packages into a buffer and split their
-- text into arguments.
--
-- Files and code:
--   Arg       arguments.hpp: `arg_t` is the record `Arg`; the two overloads of `process` are `process`
--             and `process_str`, with `skip`, `scan` and `collect` for the loops inside.
--   Buffer    buffer.cpp: `buffer_t` is the record `Buffer`, its block a list of bytes; each method
--             is a definition of its name, and `write` is `write_str` and `write_int`. What the two
--             have in common is `begin_package` and `end_package`. Buffer/Memory has the C functions on
--             memory.
--   Ae        the event loop: Ae/Types the structures of ae.hpp, Ae/Epoll and Ae/Create the calls of
--             epoll and the constructor, Ae/Files and Ae/Times the two tables of events, Ae/Resize
--             `resize`, Ae/Process `poll`, `process_events` and `run`. Ae/Process/Calls
--             follows the calls of procedures, Ae/Process/Keeping those of which procedures are made,
--             Ae/Process/Dispatch and Ae/Process/Loop the rounds.
--   Anet      anet.cpp: options and creation of sockets; Anet/Connect the two generic connects,
--             Anet/Serve the servers, Anet/Transfer accept and the loop of reads, Anet/Write that of
--             writes. Anet/Calls has the calls that fix arguments, Anet/Names the
--             addresses of sockets as texts. Anet/Opens says which descriptors are open after a call.
--   Wire      packages on a stream: what the client and the server make of anetRead, read and anetWrite
--             on a descriptor that may be -1. Wire/Exact has them on a connection that stands.
--   Stdio     the C library's files, a parameter with laws.
--   Chunks    a file in packages: the loop over fread that client.cpp and server.cpp share word for
--             word, and the flush of buffers. Chunks/Pieces says how a text is cut, Chunks/Read and
--             Chunks/Whole what the loop makes of a file, Chunks/Flush what is sent.
--   Command   the lookup in a command table, and the test of the number of arguments.
--   Client    client.cpp: `client_t` is the record `Client`; the methods and commands have their names.
--             Client/Recv is about one package, Client/Send, Client/FileRecv and Client/Upload about
--             what is sent and received, Client/Dispatch about the lines that it takes and refuses.
--   Server    server.cpp: `server_t::client_t` is the record `Session`, with its commands;
--             Server/Handlers has the three handlers as procedures of the event loop, with the sessions
--             on a heap, Server/Start `init` and `wait`. Server/Sending, Server/Receiving and
--             Server/Upload are about what a session sends and receives, Server/Lines and
--             Server/Dispatch about the lines that it is sent. Server/Pointers, Server/Removal and
--             Server/Deletion follow the addresses of sessions in the table of events, Server/Rounds
--             and Server/Firing the handlers, Server/Running and Server/Safety the whole program;
--             Server/Watching, Server/Closing and Server/Serving follow the interest list of epoll. The
--             modules Clean say of the operations below that they use nothing deleted.
--   Copies    the client and the server together: a file that is downloaded, and one that is uploaded.
--   Console   client_main.cpp: `fgetline`, and the loops over the lines of the console.
--   Samples   a small connection and a file, for the examples.
--   Base      shared types and lemmas: faults, bytes, lists with indices, signed integers.
--
-- How code is modelled: an operation takes the old state and returns the new one. Where the C++
-- program would stop at an assertion or run into undefined behaviour, the result is an `err` with the
-- fault: an index outside an array, a null pointer, a block that is deleted twice, a session that is
-- used after it was deleted. Descriptors are signed integers, since the code hands on the -1 of a failed
-- call. A mask is a record of its two bits.
-- A procedure is known by a number, and what it does is a parameter, as is the kernel: a record of
-- system calls over a type of worlds, with the laws of epoll(7) that the code relies on as a second
-- record, which a concrete kernel in Ae/Tests satisfies. Fresh memory is a parameter too, so that
-- nothing depends on what it holds.
--
-- Bounds and fuel: size_t is a number below 2 ^ 64, and the buffer lemmas ask that sizes stay there;
-- the timeout that reaches epoll_wait is cut to an int. The splitters recurse on fuel: the length of
-- the line and one more is always enough for the one on C strings, and the other may run for ever.
-- The loop that carries milliseconds over into seconds gets their number as fuel, which is enough.
-- The loops of anetRead and anetWrite end after at most one round more than there are bytes, that of
-- anetGenericAccept one round after the last interruption. `run` takes as fuel the number of rounds
-- that are looked at. The loop over a file takes a round for each 1015 bytes and two more, if its
-- reads do not fail. The loops of the console are on fuel, a round for each line.
--
-- A connection stands, for the theorems that ask for it, if no call on it fails and a read gets no bytes
-- only when none are to come; the stream that is to come is part of the world, and writes leave it. The
-- server's `recv` calls read once, so its theorems ask besides that a read gets all that it asks for,
-- where that much is to come. The two sides of a copy have worlds of their own, and the stream that the
-- one sends is given to the other.
--
-- A port is the number that is meant, not the text of it that fits into the array of 6 characters, a
-- path of a local socket ends at its 107th byte, and the size given to `resize` is not negative.
--
-- Not modelled: name resolution in anet.cpp, prompts and logging, whose header is not in
-- the repository, and the start of the server in server_main.cpp. Sums of seconds do not overflow, the
-- text of error messages is left out, and of the destructors only those of a client and a session are
-- there, without the memory that they free.
mod Base
mod Samples
pub mod Arg
pub mod Buffer
pub mod Ae
pub mod Anet
pub mod Wire
pub mod Stdio
pub mod Chunks
pub mod Command
pub mod Client
pub mod Server
pub mod Copies
pub mod Console
