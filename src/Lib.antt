-- ===== src/Lib.antt =====
-- A file storage server in memory: a process with worker threads that answer the requests of its
-- clients over sockets, and the library of calls that a client links.
--
-- The parts and their files:
--   Lis        source/list.c, header/list.h: doubly linked lists over a store of nodes. A read of
--              a null or freed node is a `fault`. `insertH` is insert_h, `takeHead` is take_head.
--              Lis/Seg says what it is for the store to hold given cells; Lis/Insert, Search,
--              Remove, Unlink and Delete take one operation each.
--   Hash       source/hash.c, header/hash.h: the chained table. Hash/Rows and Hash/Table say which
--              map it stands for; Hash/Change, Update and Removal what the operations do to it.
--   File       source/file.c, header/file.h: a stored file, its flags and its owner.
--   Protcol    header/Protcol.h: the codes, the request, and an `int` as four bytes.
--              Protcol/Buffers is `readn` and `writen` of source/Protcol.c, over partial and
--              interrupted system calls.
--   Server     source/server.c. Server/State is the global variables and the calls on them;
--              Server/Capacity is `Handlercapacity`; Server/Open, Access, Write and Walk are the
--              cases of the worker's switch, with `readFiles` and `relaselock`; Server/Worker is
--              the switch and one round of the worker's loop.
--              Server/Invariant is what holds between requests, and the view of the server as a
--              map from path names to files; Server/Spec is the specification of one file.
--              Server/Refine, Handled, Create, Stored, Appended, Removed, Release, Ended,
--              Sent, Evict and Limits are the proofs. Server/Evict is which files `Handlercapacity`
--              chooses, Expelled (with Expelled/Rounds) what becomes of them, Full the whole of it,
--              with Full/Written and Full/Appended for WRITE and APPEND over the bound; Swapped is a
--              creation in a full table.
--              Server/Plain, Rounds and Drain are the requests that never wait, at the worker's
--              switch, as rounds of the worker, and as a queue that is worked off. Server/Private
--              is what a handler may touch, with rules for its steps (Ends) and a file for each
--              group of handlers: Access, Opening, Storing, Walking; Served is the switch.
--              Server/Message is `readMessage`; Server/Dispatch is the thread `dispatcher`, with
--              Bounded and Ending for one of its rounds, Steps for runs of dispatcher and workers,
--              HungUp for the time after SIGHUP, and Answered for the way of a request from the
--              socket to its answer. Server/Config is `configura`; Server/Shutdown is what the
--              signal handler and `freeStruct` do with the files at the end. Server/Stop is how the
--              workers, the dispatcher and the signal handler stop, a step of one thread at a time;
--              Stop/Woken and Unblocked are the proofs.
--   Api        source/api.c: the calls that carry one path name. Api/Connect, Opening, Sending and
--              Receiving are the others, Api/Backup the files that a call stores. Api/Delivery,
--              Creation and Surplus put the calls before the server's handlers; Api/Returned does so
--              for `writeFile` over the bound, and Returned/Unread for `appendToFile`. Api/Parts is
--              one file in the bytes that a client reads, Api/Attempts the loop of `openConnection`.
--   Client     source/client.c: the command line client over the calls of source/api.c, which are a
--              record (`Calls`). Client/Args is `controlFirstStr`, Files `CreateWrite`, `writeF`,
--              `append` and `letturaRandom`, Visit `visitaDir`, Download `letturaFiles`, Commands
--              the switch of `main`. Told, Checked and Allowed are about the arguments, Visit/Listed
--              and Written about the directory, Download/Saves about the folder. Client/Served fills
--              the record with the calls against the server's handlers; Served/Upload takes one call
--              each, Served/Stores the upload of files, Served/Visited that of a directory.
--   Queue      source/queue.c, header/queue.h, which nothing calls: a queue of pointers. Queue/Row is
--              its nodes in a row, Queue/Moves one call each, Queue/Fifo runs of calls, Queue/Freed
--              the walks over all nodes.
--   StringUtil source/stringutil.c: splitting and joining strings.
--   Tests      runs on concrete inputs, and the theorems at concrete servers.
-- Prelude, Run and Text are helpers: lists, integers, computations that may fault, texts.
--
-- How they interact: a handler looks the path name up in the table, which gives the pointer to the
-- file; it reads and changes the file behind it, sends bytes to the client, and logs. The table and
-- the FIFO queue both hold pointers to files, so the files live in a heap (`files` of Server): a
-- free is a write of `none`, and a use after it faults. The dispatcher reads requests off the sockets
-- that `select` reports, takes their descriptors out of the set and puts them into the queue; a
-- worker takes the head of the queue, answers, and hands the descriptor back through a pipe.
--
-- What a computation returns (Run): `ok`, `fault` for undefined behaviour of the C code (a null or
-- freed pointer, a buffer that is too short, a division by zero), and `spin` for fuel that ran out.
-- Fuel: a walk over a list gets its length and one more, and so does the first loop of
-- `Handlercapacity` from the queue; each round goes one node on, and a list that is in order has as
-- many nodes as its length says. The loops of `readn`, `writen`, `openConnection` and `Queue_delete`
-- take any fuel, and a bound that is enough is proved; the dispatcher goes over `fd_num + 1`
-- descriptors.
--
-- Bounds: path names are lists of bytes of any length, where the code copies into 130 bytes.
-- `actual_size` is an integer with no width, as are the counters; the sizes in a request and of a
-- file are natural numbers, where the code has an `int`, and what `readn` and `writen` return is not
-- narrowed to one. The numbers of the configuration are. The hash is taken modulo 2 ^ 64.
--
-- Not modelled: the sockets and pipes that main makes, SIGTERM, and the frees of the queues; the locks
-- of the table and of the files, so a round of a worker and a round of the dispatcher are one step
-- each and two handlers do not interleave (only Server/Stop has the threads' own steps, without what
-- the handlers do); prints. `select`, `accept`, `getopt`, `readdir`,
-- `connect`, `stat`, `fopen`, `strtol`, `realpath`, `read`, `write`, the clock and what comes back on
-- the client's socket are parameters. In the handlers a write to a socket is taken to go through, and
-- so is `select` in the dispatcher, which ends where it fails. Memory from `malloc` holds what a
-- parameter says; a pointer in it that the code does not set reaches nothing, and to read through it
-- or to free it is a `fault`. A read of an empty pipe, which waits, is a `spin`. What a call or the
-- client writes to a folder is a list of writes; what is then on disk is `on_disk` of Api/Backup.
pub mod Prelude
pub mod Run
pub mod Text
pub mod Lis
pub mod Hash
pub mod StringUtil
pub mod Protcol
pub mod File
pub mod Server
pub mod Api
pub mod Client
pub mod Queue
pub mod Tests
