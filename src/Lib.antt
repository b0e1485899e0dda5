-- ===== src/Lib.antt =====
-- A model of the file-storage server of this repository, a C program of threads, and proofs about it.
--
-- The program. A main thread (src/server/server.c) accepts clients on a socket and puts those with a
-- request into a queue; worker threads (src/server/workers.c) take them from it, run one handler
-- for each request, and report to the main thread, which closes the connections of clients that
-- are gone. The handlers share a map from path names to files (src/util/hash), the counters of the
-- server's state and their peaks, and the configuration. A handler works in one critical section,
-- under `files_mtx`; files carry readers' and writers' locks besides (src/server/file_locks.c), since
-- a reader sends its file to the client outside the critical section. When the store is full,
-- files are expelled in the order of a policy (src/server/replacement.c).
--
-- The files of this development.
-- Prelude: lists, Boolean tests and keys that the other files share.
-- Hash: src/util/hash and src/util/hash.c. A map is an array of lists of nodes (HashMap), a table of
--   descriptors is a map without data (HashTable), Iter is the iterator.
-- LinkedList: src/util/list.c and node.c on a heap, whose addresses `malloc` chooses.
-- Io: `readn` and `writen` of src/util/util.c, over system calls that move any number of bytes.
-- Server.State: the types of includes/server.h and includes/server-api-protocol.h; what a critical
--   section can come to, with waiting, `exit` and undefined behaviour as outcomes.
-- Server.FileLocks, Replacement, OpenFile, WriteFile (with append_to_file.c), CloseFile (with
--   `close_client`), RemoveFile, ReadFile (with read_n_files.c), Send: the file of that name in
--   src/server. A name that ends in `_under_lock` is the critical section of a handler.
-- Server.Requests: how the handlers read a request; Server.Workers: one round of `worker_thread`.
-- Server.Settings: the configuration file (get_server_config.c) as bytes.
-- Server.Main: the turns of the main loop (server.c) on its set of descriptors, its queue and its
--   table of clients, the first lines of a worker's round and the signals (sig_handler.c). World has
--   the threads together as a step relation, Runs their histories; a worker that waits may wake at
--   any time, and takes a client then without looking at the queue again, as in the source.
-- Api: the client library, src/api. State has its globals, the errors and the connection, Calls the
--   calls on a path name, Transfers those that move contents, Files what the server sends back,
--   with src/util/files.c, Time what openConnection sleeps (src/util/util.c). Serves has a call and
--   a worker on the two ends of a connection.
-- Server.Invariant: what holds of the shared state between critical sections; Server.History: the
--   states that the server comes to through critical sections in any order.
-- Tests: concrete runs.
--
-- Conventions. A write through a pointer into the map is a change of the map at that path name. The
-- clock and the success of an allocation are arguments. Counters keep their width of 32 or 64 bits.
-- Two loops take fuel: the loop of the callers of the iterator, where one round more than there
-- are elements is enough (`visit-entries`), and `expell_loop`, which takes a file out of the map in
-- each round and gets one round more than there are files.
--
-- A step of the history of the store is a critical section, or the end of a transfer; a step of
-- the threads in Server.Main is a turn of the main loop, or one thread's work on the queue or a
-- client. There a worker's work on a client may change the store in any way but for the counts of
-- connections, which no handler writes. The client library's loop over the files that arrive takes
-- fuel, one round more than there are bytes.
--
-- Not modelled: logging, the client program, the creation of threads, sockets and pipes, and
-- directories. The file system, `connect` and `accept` are parameters. The client's disk is a
-- function from paths to contents, which writing a file overwrites. The lists of the map and of
-- the queue are plain lists; LinkedList shows that the pushes and pops of list.c are those of a
-- plain list. LOCK_FILE and UNLOCK_FILE are operation codes without a handler in the source.
pub mod Api
pub mod LinkedList
pub mod Prelude
pub mod Hash
pub mod Io
pub mod Server
pub mod Tests
