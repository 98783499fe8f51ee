-- ===== src/Lib.antt =====
-- MultiThreadTest: the server library ServerCore of `JobTimer_소스코드 (1)`, an IOCP server with
-- worker threads, job queues and its own locks and memory pools; GameServer, which uses it; and the map
-- server in ThreadPool, on Boost.Asio, with its messages.
--
-- The parts and how they meet. Worker threads of a ThreadManager take completions from IOCP and
-- dispatch them to a Session. A Session receives into a RecvBuffer, cuts the stream into packets
-- (PacketSession) and sends the SendBuffers that any thread hands to Send. The user's code pushes
-- jobs to a JobQueue, which one thread at a time executes, or reserves them with the JobTimer. All of
-- them share state under a Lock, whose order of acquisition the DeadLockProfiler watches in a debug
-- build, and take their memory from Memory.
--
-- In GameServer the packets of a GameSession change its players and give jobs to the one Room, which
-- sends what it is told to all who are in it.
--
-- In the map server an Acceptor takes clients for a Service each. A Service reads a header and a body,
-- makes the request of the header's id, loads it from the body through an archive, lets the worker of
-- the request ask the database, and sends the worker's response or an error.
--
-- The files, each with the code of `JobTimer_소스코드 (1)/ServerCore` that it models; the child modules
-- hold the proofs, and each Tests the concrete runs.
--   Common            CoreMacro.h (CRASH, ASSERT_CRASH) as a result type; lists, tests, sums
--   RecvBuffer        RecvBuffer.h, RecvBuffer.cpp: the positions and bytes; Clean, OnRead, OnWrite
--   PacketSession     PacketHeader of Session.h; PacketSession::OnRecv of Session.cpp
--   Session           Session.h, Session.cpp, EventType of IocpEvent.h: every method as a function
--                     from state to state. Session.Send: callers of Send beside completions, as steps
--                     of a relation. Session.Recv: one receive, and streams of them
--   JobQueue          JobQueue.h, JobQueue.cpp, DoGlobalQueueWork of ThreadManager.cpp: steps of
--                     threads between their accesses to the count, the list and the global queue
--   Lock              Lock.h, Lock.cpp: steps of threads between their accesses to the word
--   DeadLockProfiler  DeadLockProfiler.h, DeadLockProfiler.cpp: Dfs, CheckCycle, PushLock, PopLock
--   Memory            Memory.h, Memory.cpp, MemoryPool.h, MemoryPool.cpp; StompAllocator of
--                     Allocator.h, Allocator.cpp
--   SendBuffer        SendBuffer.h, SendBuffer.cpp: one thread, its chunk and the chunks in reserve
--   JobTimer          JobTimer.h, JobTimer.cpp: Reserve, Clear, and Distribute in steps
--   Buffer            BufferReader.h, BufferReader.cpp, BufferWriter.h, BufferWriter.cpp
--   RefCounting       RefCounting.h: the counts and the pointers
--   LockQueue         LockQueue.h; GlobalQueue.h and GlobalQueue.cpp pass their calls on to it
--   Service           Service.h, Service.cpp, Listener.h, Listener.cpp: the set of sessions, Start,
--                     the accept loop
--   ThreadManager     ThreadManager.h, ThreadManager.cpp: thread ids, DoGlobalQueueWork
--
-- Those of `JobTimer_소스코드 (1)/GameServer`:
--   Game              ClientPacketHandler.h, ClientPacketHandler.cpp, Room.cpp, GameSession.cpp,
--                     GameSessionManager.cpp, Player.h: the handlers and the room's jobs as events
--
-- That of MultiThreadMemoryPoolTest/Project2:
--   PowerPools        MemoryPool.h, MemoryPool.cpp: pools of blocks by powers of two
--
-- Those of ThreadPool/ThreadPool:
--   Archive           Common/ae_binary_iarchive.h, ae_binary_oarchive.h: bytes in and out
--   Messages          Common/response_common.h (a module for each class), response.h (Responses),
--                     request.h and Server/request_creator.cpp (Requests), imessage.h and
--                     imessage.cpp (Load)
--   Workers           Server/worker_creator.cpp, worker_common.h, worker_common.cpp: the queries
--   Server            Server/Service.cpp, Acceptor.cpp, Server.cpp: a connection as steps, the
--                     acceptor as events
--   ThreadPool        ThreadPool/ThreadPool.cpp, ThreadPool.h, and ThreadPoolTest/ThreadPool.cpp of
--                     the root: workers, callers of EnqueueJob and the destructor as steps
--
-- State and operations keep the names of the members and methods, in lower case with underscores.
-- An operation that may crash or be undefined returns a Result. The operating system (WSARecv,
-- WSASend, ConnectEx, DisconnectEx, _aligned_malloc, VirtualAlloc, GetTickCount64) and the user's
-- virtual functions are arguments, and so are Protobuf's parsing and sizes, the database classes,
-- CMapDoubleArea, zlib, lzma and what Boost.Asio reports. ASSERT of the map server does nothing, as
-- in a release build; std::vector::resize to a negative count throws, which is `none`. An integer
-- of a message is its bit pattern. uint16, uint32 and uint64 wrap where the code can make them: the
-- lock word, the counters of the pools, the used size of a chunk, the positions of readers and
-- writers, ticks; the sizes of PowerPools are bit patterns of an int32. The int32 positions of RecvBuffer are natural
-- numbers, with OnRead and OnWrite of a negative count beside, and so are the count of a JobQueue and
-- the counts of references.
--
-- Fuel. PacketSession::OnRecv has one round more than there are bytes; its streams without end are
-- described by a predicate of their own. Dfs has one level more than there are locks. The loops that
-- fill the table of Memory have 64 rounds each, of which they use at most 32, and `size + 1` rounds of
-- the inner loop. The loop that doubles a size of a pool has 8 rounds, of which a size of at most 4096
-- takes 7. PopAll has one round more than there are items. RegisterAccept has the calls that the
-- stack has room for, and overflows it beyond. DoGlobalQueueWork takes its rounds from a list of what
-- it meets. All other loops are structural.
--
-- Interleaving. Lock, JobQueue, the thread pool and the sending half of a session run in steps between
-- which any other thread may run: those of Session/Send are the parts of Send, RegisterSend and
-- ProcessSend. A handler of GameServer runs as a whole, and the pointers of RefCounting, the pools and
-- the receiving half of a session are those of one thread.
--
-- Not modelled: memory orders weaker than sequential consistency; handlers of GameServer that another
-- worker's OnDisconnected interrupts; the reference counts of shared_ptr;
-- the printing of the profiler; IocpCore, NetAddress, SocketUtils, and the start and the end of the
-- operating system's threads; to_string, EnumStringW and the log of the map server, its requests for
-- models and GEMs, whose classes the repository does not have, and IMessage::save_to, a comment in the
-- source; the main programs of GameServer and DummyClient and their generated Protobuf code; those in
-- test, AsioServer, MultiThread and client; main.cpp of MultiThreadMemoryPoolTest.
pub mod Common
pub mod RecvBuffer
pub mod PacketSession
pub mod Session
pub mod JobQueue
pub mod Lock
pub mod ThreadManager
pub mod DeadLockProfiler
pub mod Memory
pub mod SendBuffer
pub mod JobTimer
pub mod Buffer
pub mod RefCounting
pub mod LockQueue
pub mod Service
pub mod Archive
pub mod Messages
pub mod Workers
pub mod Server
pub mod ThreadPool
pub mod Game
pub mod PowerPools
