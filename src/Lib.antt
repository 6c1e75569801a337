-- ===== src/Lib.antt =====
-- Calls between processes: a client sends the names of a class and a function with arguments, a server
-- runs the function and sends back its results or an error. This library models the messages, the
-- registry, the server, and the macOS and the Windows side.
--
-- Bytes             memory as a list of bytes; little-endian words; size_t with 64 bits
-- Value             source/ipc-value.cpp: size, serialize_* and deserialize_* are the branches of the
--                   switches of value::size, value::serialize and value::deserialize
-- Message           source/ipc.cpp and include/ipc.hpp: Call is function_call, Reply is
--                   function_reply, Frame is make_sendable and read_size
-- Naming            source/ipc.cpp: base::make_unique_id, vectortohex, ProcessInfo::getDescription
-- Map               std::map, as far as the sources use it
-- Functions         source/ipc-function.cpp: ipc::function
-- Collections       source/ipc-class.cpp: ipc::collection
-- Server            source/ipc-server.cpp: the registry and client_call_function; Server/Clients is
--                   the list of sockets, the instances behind them, and the watcher;
--                   Clients/Schedule lets the watcher and the owner of the server take turns
-- Os                include/error.hpp; Os/AsyncOp is source/async_op.cpp with
--                   source/apple/async_request.cpp
-- Osx               source/apple: ServerInstance is ipc-server-instance-osx.cpp, Client is
--                   ipc-client-osx.cpp, Socket is ipc-socket-osx.cpp; Channel is what the two ask of
--                   a socket; Rpc puts a call together
-- Windows           source/windows: Utility is translate_error of utility.cpp, Waitable is waitable.cpp,
--                   AsyncRequest is async_request.cpp, Socket is ipc-socket-win.cpp, Client is
--                   ipc-client-win.cpp, ServerInstance is ipc-server-instance-win.cpp. Client/Worker
--                   and Client/Calls are its two kinds of threads, Client/Schedule lets them take
--                   turns. Connections is the interface of the watcher over this socket, with the
--                   part of accept_client_cb of source/ipc-server.cpp that is for Windows only
-- Tests             runs at concrete inputs
--
-- A client serializes a function_call into a frame, whose header is the number of bytes behind it, and
-- writes it to the request pipe. The request thread of the server instance reads the frame and queues
-- the message; the reply thread takes it out, asks the registry, and writes the frame of a
-- function_reply to the reply pipe; the client reads that, finds the callback by the number of the
-- call, and runs it. Two semaphores hand the turn between the threads of an instance, and one holds
-- back a second call of a client.
--
-- On Windows both ends keep a worker, which reads a header, then a body, each by an asynchronous
-- operation with a callback; a read that fails to start runs its callback at once. The model names the
-- functions that are bound as callbacks and runs them where the code calls call_callback. A wait runs
-- the callback of the operation that has completed. `call` is split where it waits, since the worker
-- runs meanwhile: begin_call goes up to the wait for the write, end_call is what follows. The map of
-- callbacks is behind a lock, so that the halves of a call and the passes of the worker are steps.
--
-- What a C++ call comes to is an Outcome: a value, an exception, abort(), or undefined behaviour, which
-- is every access outside a buffer. The union of a value is the list of the bytes that have been
-- written to it, lowest first. Pointers to functions with their user data are functions on a type W,
-- which is all that code outside can change. Sums of sizes are taken not to wrap: the objects stand in
-- memory together; the subtractions of size_t wrap as they do in C++. An allocation is taken to succeed,
-- with one exception: deserialize_within of the two messages has the number of values that memory takes
-- as a parameter, since the number that is asked for comes unchecked from the message; deserialize is
-- that with memory for any 32-bit number, which the clients and the instances use. A round of a thread
-- is one step: the semaphores let only one of the two threads run.
--
-- Fuel stands only where the code can go on for ever: the retries of the client's write, the reads of
-- a socket and the retries of a Windows wait; running out is the result `blocked`, never an answer. A
-- read(2) that waits for ever is `blocked` too. The loop of `finalize` and the chunks of a write take as
-- much fuel as there are clients or bytes: each round takes one away at least. run_worker is given the
-- number of passes that are looked at, watcher what happens between its rounds, and await_write and
-- await_signal the answers of the waits, each as a list.
--
-- Parameters, since they are not part of the sources: the system calls on pipes (Osx.Socket.System),
-- the calls on a Windows pipe and an OVERLAPPED (Windows.Socket.PipeSystem,
-- Windows.AsyncRequest.Overlapped), what a wait of the workers returns (Waiting), the answers of
-- WaitForSingleObjectEx and WaitForMultipleObjectsEx, the Windows error codes, and the handlers of the
-- application. The server takes its instances and sockets by interfaces (Server.Clients), and the
-- macOS workers their socket (Osx.Channel).
--
-- Not modelled: the semaphore wrappers; the release of handles; data races on the socket of a Windows
-- client, which its worker and its calls share without a lock; the memory that a pending read or write
-- uses; logging; source/apple/named-pipe.cpp, an older copy of the socket that is not built; the
-- timeout of a call, which the macOS side does not use; set_message_handler, whose value nothing
-- reads.
pub mod Base
pub mod Bytes
pub mod Collections
pub mod Functions
pub mod Map
pub mod Message
pub mod Naming
pub mod Os
pub mod Osx
pub mod Server
pub mod Tests
pub mod Value
pub mod Windows
