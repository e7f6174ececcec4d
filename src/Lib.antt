-- ===== src/Lib.antt =====
-- A model of the AFS-like file system: a server that keeps files (server.cc), a client that mounts them
-- with FUSE and works on copies in a cache directory (client.cc, AfsClient.h), and the header that
-- both include (commonheaders.h). Client and server talk over gRPC with the messages of
-- protos/afs.proto.
--
-- The parts, and where they are:
--   Common    names and lemmas that all files share; the tests on numbers, lists and integers.
--   Machine   the C types that the program converts between: wrap-around of int, unsigned, long,
--             size_t.
--   Posix     the calls of the file system and the values that C leaves indeterminate; Posix/Laws
--             says what these calls do on regular files where the disk works, Posix/Splice where
--             bytes stand that are put into a file, Posix/Changes what a change means for the bytes
--             under each path, Posix/Sessions what is left of a descriptor from its opening to its
--             closing.
--   Paths     commonheaders.h: getServerPath, getLocalPath, getLocalTmpPath with strncat.
--   Cache     commonheaders.h: hashfilename and hashtableindex (Cache/Hash), the array ht with
--             init_ht, get and put (Cache/Table), the text of database.txt (Cache/Database,
--             Cache/Decimal). Cache/Database/Tail is about a text behind the table's. Cache/Valid
--             has the invariant of the table and the map that it stands for; Cache/Refinement is
--             about sequences of calls and restarts against that map, Cache/Hash/Polynomial about
--             the hash as a number.
--   Protocol  protos/afs.proto: the messages of the nine calls that are implemented.
--   Server    server.cc: the handlers of AfsServiceImplementation, one function each. Server/Start
--             has the root that main sets, Server/Answers the replies by what the calls return,
--             Server/Effects the calls behind an open. Server/Service says what the clients are
--             promised, a store of byte strings by path, and Server/Refinement (with Server/Served
--             and Server/Tracking) is about the handlers against it. Server/Threads has STORE and
--             FETCH cut at their system calls, as gRPC interleaves them on its threads, with the
--             order of the turns as a list: a STORE and a FETCH in Server/Threads/Races, two STOREs
--             in Server/Threads/Stores, against an outline of two steps for each STORE
--             (Server/Threads/Outline).
--   Client    AfsClient.h: the process (Client/Process), retry_req and the loops (Client/Retry), and
--             the operations: with the server (Client/Transfer), on names (Client/Names) and on open
--             files (Client/Files; Client/Read, Client/Write, Client/WriteRead and Client/Unmarked
--             on what they do to the copy, Client/Edits on any sequence of them). The functions have
--             the names of the methods, in small letters: afs_open is afs_OPEN.
--   Fuse      client.cc: the table of operations, main up to fuse_main, sequences of requests
--             (Fuse/Session) and the start from the database of an earlier client (Fuse/Restart).
--   Link      client and server together: the client's stub runs the server's handlers, and the
--             environment decides which requests and replies are lost. Link/Consistency is about the
--             test for a stale copy, Link/Fetch (with Link/Refill) and Link/Release about files on
--             their way, Link/Losses about lost stores, Link/CloseToOpen about two clients,
--             Link/Stale and Link/Unsaved about opening a path that has a copy, Link/Listing about
--             directories, Link/Create about new files, Link/Sharing about bytes that one client
--             writes and another one reads, Link/LastClose about two clients that edit one file,
--             Link/Removed about a file that one client removes, Link/Database about a file that is
--             called as the client's database.
--   Drivers   cacheconsistencytest.c, the programs of AFS_performance and those of AFS_scale, on a
--             file system.
--   Tests     concrete runs, and the theorems applied to them.
--
-- The correspondence. A handler of the server takes a request and the host, which is the file system
-- with errno, and returns its status, the reply and the host afterwards. An operation of the client
-- is a step on the client's process: the file system, the connection, errno, the table ht, the
-- members retries and interval of AfsClient, and the list of the pauses made. What C stores through
-- a pointer (fi->fh, *stats, the filled names) is part of the result. A step may end the process, as
-- dump does on a null stream, read_from_database on a line with no comma or with two, and afs_STORE on a
-- negative size (std::string throws). Numbers of C keep the width of their type; char is signed, as
-- on x86-64; a path is a list of bytes without its final zero.
--
-- Parameters. The file system (Posix), gRPC (Stub, or Link for the server of this repository) and
-- what uninitialised storage holds (Indeterminate) are arguments of the definitions. Theorems on
-- what a call leaves on the disk suppose IsHealthy: documented behaviour of open, read, write, pwrite,
-- lseek, ftruncate, stat, fsync, close, unlink, remove, rename and fopen on regular files, with room and
-- without faults. A file can be made only where Vacant holds: nothing is there, and the path is a plain
-- name for a file, no directory, in a directory that is there. modified, in IsHealthy, is the time that
-- lstat and fstat tell of a file, in nanoseconds. Tests/Memory has a file system in memory that meets
-- these laws.
--
-- Loops. The loops over lists and chains are recursion on them. The three retry loops run on fuel 6:
-- retries starts from 1, goes up by one each round, and the test retries > 5 ends the sixth; a loop
-- that ran out of fuel would end as `spent`. %ld is printed on fuel 20, and a long has at most 19
-- digits. The six turns of FETCH and the four of STORE are counted down by the steps of the threads.
--
-- Not modelled: what is printed and measured; get_time, which nothing calls; the setting up of gRPC
-- (RunAfsServer of server.cc) and the options of FUSE; the local mkdir behind the two returns
-- of afs_MKDIR; the deadline and status details of gRPC; more than two handlers at a time, and a client
-- with more than one thread; the DIR that afs_LS of the server leaves open; what a write past the end
-- of a path buffer destroys; the pause of the consistency test; the shell scripts and the build files.
pub mod Common
pub mod Machine
pub mod Paths
pub mod Cache
pub mod Posix
pub mod Protocol
pub mod Server
pub mod Client
pub mod Fuse
pub mod Link
pub mod Drivers
pub mod Tests
