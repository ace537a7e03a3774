-- ===== src/Lib.antt =====
-- SimpleServ, an HTTP server that serves the files of one directory.
--
-- The accept loop of a server reads a request from each connection and puts both into a ring
-- buffer, from which the workers take them. A request is a byte string that a worker hands to
-- `HTTPHandler::handle`. It is parsed, its path is turned into the path of a file below
-- `../webdir`, the file manager answers with the file from its cache or from the disk, and the
-- response is printed. The file manager knows the files that were found at the start; it may have
-- compressed some of them.
--
-- The modules, with the files that they model (headers below include/simpleserv, sources below
-- src/simpleserv):
--
--   Common                  byte strings, associative containers, outcomes of a call
--   Utility.StringParser    utility/string_parser.hpp: `move`, `expect`, `next_token`, ...
--   Utility.FileType        utility/file_manager.{hpp,cpp}: file types, encodings, extensions
--   Utility.FileSystem      the file system as the sources use it
--   Utility.ContentCoding   utility/content_coding.cpp: `encode`, `encode_directory`
--   Utility.FileManager     utility/file_manager.{hpp,cpp}: descriptors, disk fetcher, cache
--   Utility.LockFreeQueue   utility/lock_free_queue.hpp: `push`, `pop`, `next`; in Steps the accesses
--                           to memory of one pushing and many popping threads, in any order
--   Utility.Url             utility/url.{hpp,cpp}: `from_string`, `percent_encode`, `percent_decode`
--   Http.Status             http/http.hpp: methods, status codes, `status_code_to_string`
--   Http.Message            http/message.hpp: messages, their printers, method and version
--   Http.Parser             http/parser.cpp: `parse_http_request` and its parts; in Grammar the texts
--                           of requests
--   Http.RequestHandler     http/request_handler.cpp: one function per method
--   Http.Handler            http/http_handler.cpp: `handle`, `prepare_response`
--   Http.Headers            http/headers.hpp: the names of the header fields
--   Server.Connection       request_processing/*.hpp: connections, `handle_connection`, the worker
--   Server.Accept           server/tcp_server.hpp: `AcceptIncoming`
--   Server.Tls              server/tls_server.hpp and request_processing/tls_connection.hpp
--   Server.Pipeline         the accept loop with a worker behind it
--   Server.Pool             request_processing/threadpool.hpp and connection_handler.hpp: the accepting
--                           thread and all workers at the same time
--   Server.Start            `Start` and `Stop` of server/tcp_server.hpp and tls_server.hpp
--   Server.Threadpool       request_processing/threadpool.hpp: the threads, `join`, the destructor
--   Server.Units            server/server_manager.hpp: configurations and the servers made from them
--   Server.Manager          server/server_manager.hpp: the order of starting and stopping, and
--                           `signal_handler` of src/serverexec/main.cpp
--   Server.Program          src/serverexec/main.cpp with the static object of http/http_handler.hpp
--   Cache                   cache.hpp: `Cache` over a storage, `InMemoryStore`, `FileStore`
--   Tests                   the tests of the repository and examples
--
-- Functions keep their names in lower case; a helper is named for what it does. A member function
-- takes its object and returns it with the result. Where a call can throw or have undefined behaviour
-- it returns an `Outcome`; `utility::expected` is a sum.
--
-- Loops over text are recursions on the text. The loop over the header lines has fuel one above the
-- length of the text, since each round takes at least two bytes. The loops over a stack of
-- directories have fuel that the caller gives, since a file system is any function and may have no
-- end; one unit for each directory is enough where they form a finite tree. The loops of the server
-- have no end: a run of them is given by its rounds.
--
-- The threads meet in the ring buffer. Utility.LockFreeQueue.Steps gives each access to the shared
-- memory as a step, and a run is any sequence of the steps of one thread that pushes and of n that
-- pop. There is no test for a full queue in the source, and the exchange of `pop` compares an index
-- that comes back after one turn of the ring. So what the threads receive is stated for paced runs: a
-- push begins while there is room behind the head, and also behind the head that each thread has
-- loaded which is inside `pop` and has not copied its element. The second part also concerns a thread
-- that has claimed nothing yet. It rules out that such a thread sleeps while the ring turns once;
-- Utility.LockFreeQueue.Steps.Stalled has the runs in which one does. Memory is sequentially
-- consistent there, which is more than the source asks for.
-- Server.Pool runs the workers over these steps: `pop` step by step, and then the call of the handler,
-- the call of the sender and the call of the closer as one step each. The workers share the state of
-- the handler. Each call of the sender and of the closer is recorded with the number of its
-- connection.
--
-- Whether an accept loop ends after its stop token asks for it is an argument of the destructor of
-- the manager, which waits for the first one that does not. The call of `Threadpool::Start`, whose
-- body is empty, only marks the end of a server's `Start`: the threads of the pool run since the
-- constructor.
--
-- The header cache.hpp is included nowhere and would not compile; its functions are modelled by what
-- their texts say. `FileStore::remove` and `clear` use an undeclared name and are left out.
--
-- Not modelled: log lines; mutexes, which no code locks; the Brotli library, which is a parameter; the
-- system calls of the network and the TLS library, whose results are arguments; what two workers do
-- inside the handler at the same time, where the source has a data race on the cache of files; what
-- the process does after `std::terminate`.
pub mod Common
pub mod Cache
pub mod Utility
pub mod Http
pub mod Server
pub mod Tests
