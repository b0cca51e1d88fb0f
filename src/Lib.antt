-- ===== src/Lib.antt =====
-- Verification of the remote backup: a client that watches a directory and sends its changes over
-- a connection to a server that stores the files and their digests.
--
-- The parts, with the code of each:
--   Comm.Message (comm/Message, comm/ElementStatus): messages, their header and archive. The text
--     archive of Boost is a parameter; Comm.CommError is comm/Comm_error.
--   Comm.Utils (comm/Utils): SHA256 in blocks, the digest's text and the cookies; OpenSSL is a
--     parameter. The fuel of the block loop is one more than the length of the file, which
--     sha256_file-hash shows to be enough.
--   Server.Database (server/Database_API): every method, over a SQLite that is a parameter whose
--     laws stand in Server.Database.Semantics. The loops over rows run on fuel, which has to exceed
--     the number of the user's rows.
--   Server.Session, Server.SessionManager (server/Session, server/Session_manager): the sessions
--     and their numbers. The mutex and the condition variable of a session are left out. The
--     count of the uses of a session is an `int` that wraps, as the counter of the sessions does.
--   Comm.ServerApi (comm/Server_API): `run` is a function of the list of outcomes of `receive`, of
--     what `shutdown` and `close_conn` return, of the session manager and of the world that the
--     handlers change; `serve` is one turn of its loop.
--   Server.Push, Server.Handlers (server/Server): the handlers that the server hands to comm/Server_API
--     and the number of running connections. A push begins where its wait for the session has ended.
--   Client.FileWatcher (client/FileWatcher, client/FSElement): the watcher's elements and its scan,
--     with an action that changes a state of its own. A scan sees the file system in one state.
--   Comm.Socket (comm/Socket_API): the retry loop, sending, receiving, opening and closing, over the
--     record `Asio` of the calls of Boost.Asio. The loop of `call_` is a recursion on the attempts left.
--   Client.Session (client/Client): the client over its requests and its watcher, without the thread
--     of `run`.
--   Comm.ClientApi (comm/Client_API, comm/API): the requests of the client, over the interface
--     `ClientSocket` of comm/Client_socket_API and over a file system; Comm.ClientApi.Threaded fills
--     the interface with the code of Comm.ClientSocket, where a call that does not return is an
--     exception that nothing catches. A callback is data, and `called_back` is the code that runs
--     for it. Comm.Changes is the abstract view of the backup
--     that the probe is compared with.
--   Comm.ClientSocket (comm/Client_socket_API): an exchange of messages with its cookie and its
--     retries, which go on for as long as the server asks for them and run on fuel, and in
--     Comm.ClientSocket.Threads the threads, whose starts and ends are steps of the object. What the
--     resolver comes to is an argument of a start.
--   Console, Client.Config, Server.Config (client/ConfigSetting, server/ServerConfigSetting): the
--     questions, which are the same in both, the menu, and the files of the settings, over
--     `std::cin` as a stream. A question that is asked again runs on fuel; the number of the words
--     that are typed is enough for those that are answered by a word.
--   Cpp (no code of its own): exceptions as results, `Effect` for code that changes a state and may
--     throw, `Dialog` for such code on fuel, input streams, decimal and hexadecimal numbers, and
--     `Files`, the parameter for boost::filesystem and the file streams.
--   Base holds shared names, decidable equality, association lists and sorted containers; Examples
--     applies the theorems at concrete inputs and tests the definitions.
--
-- Not modelled: the log (comm/Logger), which only writes to a stream; the texts on the screen; the
-- entry points, which start the parts; the prototypes under test.
pub mod Base
pub mod Cpp
pub mod Console
pub mod Comm
pub mod Server
pub mod Client
pub mod Examples
