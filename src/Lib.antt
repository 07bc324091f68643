-- ===== src/Lib.antt =====
-- NestDisk, the server of a network disk: a model of the server's logic and theorems about it.
--
-- The program. `main` (`src/main.cpp`) opens the kernel (`src/TCPKernel.cpp`): MySQL, a thread pool, a
-- listening socket. One thread waits on epoll (`src/block_epoll_net.cpp`) and gives each readable socket
-- to the thread pool (`src/Thread_pool.cpp`). A pool thread reads one packet, a four-byte size and then
-- that many bytes, queues a second task, which hands the packet to `DealData`, and registers the socket
-- again. `DealData` looks the packet's type up in a table that `src/clogic.cpp` has filled, and
-- calls the handler. Handlers talk to MySQL through `src/Mysql.cpp`, keep running transfers in a map
-- with keys made of user and timestamp, read and write files, start ffmpeg (`src/transcode.cpp`), and
-- answer with packets of `include/packdef.h`.
--
-- The parts, with their files.
--   Base          numbers, integers, strings, `sprintf` and `stoi`, and lists
--   Packet        the structures, sizes and result codes of include/packdef.h
--   Pool          src/Thread_pool.cpp: `Producer_add`, `Custom` and `Manager`, each critical section a
--                 function. Pool/Ring and Pool/Refine read the task ring as a queue; Pool/Workers is
--                 the step relation of all threads; Pool/Manager is about the number of threads, Pool/Create
--                 about `Pool_create`
--   MyMap         the locked map of include/block_epoll_net.h; MyMap/History is a sequence of its calls
--   Net           the frames (`SendData`, `recv_task`), `myevent_s`, and in Net/Loop the event loop, its
--                 connections and their tasks as a step relation. Net/Loop/Life is the life of an event
--                 structure, OneShot and Calls its steps, Exclusive what holds in every state, and
--                 Reuse what happens when a descriptor's number is given again
--   Kernel        the protocol table and `DealData`; Kernel/Open is start-up, from `main` to the loop
--   Mysql         `SelectMysql` and `UpdataMysql`; Mysql/Rows is what they do when statements succeed
--   Env           the server's state and the monad of handlers, with rules for what their pieces do
--   Logic         src/clogic.cpp: Account (`RegisterRq`, `LoginRq`), Upload (`uploadFile`,
--                 `fileContentRq`), Download (`downloadFile`, `downloadFileHeadRs`, `fileContentRs`),
--                 Share (`shareFile`), Link (`getShareByLink`, `addFolderByShareDir`), Lists
--                 (`getFileList`, `getShareList`), Folder (`addFolder`), FolderDownload
--                 (`downloadFileFolder`, `downloadFolderByDir`), Delete (`deleteFile`,
--                 `deleteFileById`, `deleteFolderById`), Resume (`continueDownload`,
--                 `continueUpload`), Video (`playVideo` and src/transcode.cpp), Sessions (the keys of
--                 transfers), Tree, a folder of the database as a tree, and Serve, all handlers
--                 together. Each Isolation is about what the handlers of its parent send, and to whom
--   Wire          the bytes of packets: the casts with which handlers begin (Wire/Read), the bytes that a
--                 client sends (Wire/Print), a packet up to its handler (Wire/Serve), and a connection
--                 from the socket's bytes to the packets that its tasks queue for the handlers (Wire/Stream)
--
-- How code becomes definitions. A handler is a function of its packet and descriptor into the monad
-- `M` of Env: a function of the outside world and the server's state. It ends with a value, by the
-- code's `return`, or in a fault, which is undefined behaviour or an exception that the code does not
-- catch: an empty list's `front`, a NULL column, a text that is no number, a buffer that is written or
-- read past its end, a format without its argument. The state is the map of users, the map of transfers
-- and the trace of all calls made so far. `int` and `long` are integers, with the conversions to 32 bits
-- written out where values can leave them; bytes and the thread pool's counters are natural numbers. A
-- function that calls itself is given the function on less fuel as an argument, and the `return` of a
-- called function ends that function only (`function_call`).
--
-- What is a parameter. `Sys` of Env stands for MySQL and the operating system: each answer is a
-- function of the trace, so it may change over time and depend on everything that was asked. A theorem
-- that relies on an answer says so in a hypothesis. For `recv_task` what `read` and `recv` return is a
-- list; for the pool, `pthread_kill` and the new threads' ids are functions; for the event loop, which
-- descriptor `accept` returns and what epoll reports is the choice of a step; for start-up the results
-- of the calls are a record.
--
-- Fuel. The loop of `shareFile` that draws a link may run for ever, so it takes fuel, one unit for each
-- round. The functions that walk folders take the depth of their calls as fuel: that of the tree and one
-- more is enough. The search of `downloadFolderByDir` for a timestamp takes a unit for each look-up:
-- one more than there are transfers is enough. All other loops are structural recursion.
--
-- What is not modelled. A handler is a function that runs from its packet to its end, and its theorems
-- are about it without another handler beside it; the code may run two at once, also for two packets of
-- one connection. That a task of the event loop waits for room in the pool's queue or for a free thread
-- is not in Net/Loop, so that it says what never happens, and not what does in the end. epoll reports
-- without EPOLLIN, the sizes of socket buffers, `umask` and the printing of messages are left out;
-- `pool_destroy` has no body in the code. A handler's model takes the record of its packet's fields.
-- Wire reads all of them from the packet's bytes before the handler begins, and counts a packet that
-- ends before a field of its structure as an overrun, also where the handler would
-- return before it comes to that field. The bytes of replies are left out.
pub mod Base
pub mod Pool
pub mod Packet
pub mod MyMap
pub mod Env
pub mod Mysql
pub mod Logic
pub mod Net
pub mod Kernel
pub mod Wire
