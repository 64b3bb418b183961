-- ===== src/Lib.antt =====
-- The verify server of VerifyServer/: a Windows server that takes JSON requests in packets over TCP.
--
-- Prelude holds what all modules share: tests and lists over native numbers, blocks of memory
-- (Prelude/Memory), 32-bit words (Prelude/Word), results with faults (Prelude/Results). A fault is
-- bad_alloc, an access outside a block, through a null pointer or to what has been deleted, or a
-- recursion out of fuel.
--
-- Tcp models VerifyServer/socket/tcpserver.
--   Tcp/Platform: what the code takes from the C++ runtime and from Windows, as a parameter.
--   Tcp/Packet: PrepareSendBuf and GetPacketLen of TcpServer.cpp.
--   Tcp/Receive: SaveData of TcpServer.cpp, which puts packets together from received chunks. Its
--     recursion is on fuel; `rounds` calls are enough for a chunk, and are what `receive` gives.
--   Tcp/Connections: the map of clients and the free lists of contexts of TcpServer.cpp. The answers
--     of Windows are arguments, and `new` is taken to find memory for a context. The locks are left
--     out: an operation is one step. AddFreeSocketContext, which looks for the context and gives it
--     back in different critical sections, has its second part as a definition of its own, for
--     Tcp/Connections/Race. A context is named by its place in the order of creation; the
--     SOCKET_CONTEXTs that the server deletes are recorded, and reading one is a fault.
--   Tcp/Posting: PostAccept, PostSend, PostReceive and the forced Disconnect, and ProcessAccept,
--     ProcessSend and ProcessReceive, which call them.
--   Tcp/Ownership: where each IO_CONTEXT and each SOCKET_CONTEXT is.
--   Tcp/Worker: a pass of WorkerThreadProc over any completion packet.
--   Tcp/Table: the open connections as a table, without contexts, heap and free lists, and the log of
--     what each completion changes in it.
--   Tcp/Sending: Send, SendEx and _send. _send makes no more rounds than it has bytes, which is its
--     fuel. Tcp/Sending/Reach has the states that worker threads and callers lead to where they go on
--     one at a time.
--   Tcp/Lifecycle: Start and Stop, with the sockets, handles and threads that Windows keeps for them.
--     The loop that deletes the clients gets fuel for two rounds: the second ends it in any case.
--
-- Buffer models CBuffer of VerifyServer/socket/tcpserver/Buffer.cpp, the bytes that an IO_CONTEXT
-- carries for writing: its block, the number of bytes in use and the size. Sizes are UINTs;
-- 4294966272 bytes are the most that a block can have before the rounding to kilobytes wraps around.
--
-- MemPool models CMemPool and CMem of VerifyServer/IOCompletePort/MemAlloctor.cpp, the pool that the
-- packets of the completion port are allocated from, from its constructor to its destructor. The CMem
-- objects are a list, named by position.
--
-- SqlQueue models CDBSqlManager of VerifyServer/DataBase/DBSqlManager.cpp: ExecSqlInStack, the passes
-- of the worker thread, OpenStack and CloseStack. Nodes are named by position, so that it shows which
-- are read; SqlQueue/Open has the states that lead on from the constructor.
--
-- CompletePort models CIOCompletePort of VerifyServer/IOCompletePort/IOCompletePort.cpp: the port's
-- queue, the threads that serve it, and the end of both. CompletePort/Threads has the steps of the
-- threads, with those of other threads between them; for the end of the threads a pass, which is the
-- steps of one thread put together, is one step. What the objects do is a parameter; a call of DestroyCompletePort is a relation, since it waits for the threads.
--
-- UseCount models CUseCount of VerifyServer/common/UseCount.cpp, a count that handles share. Counters
-- and handles are named by their places; what was deleted or destroyed leaves an empty place. A call
-- is one step, and tells whether it has thrown.
--
-- Udp models CUDPSocket of VerifyServer/socket/UdpSocket/UDPSocket.cpp, as it is built for Windows:
-- Start, Stop and the receiving thread. Reach has the states over the life of a socket.
--
-- Receiver models CThreadSocketRecevier of VerifyServer/VerifyServer/ThreadSocketRecevier.cpp, which
-- hands each payload that the TCP server delivers to one of two completion ports (CompletePort). The
-- objects that it posts are named in the order of their creation, with the calls that are in progress
-- and what has ended of them. A payload is its bytes.
--
-- GlobalFunc models the helpers of VerifyServer/VerifyServer/GlobalFunc.cpp: CreateDirectoryMulti over
-- the file functions of Windows, and the conversions between UTF-8 and wide characters.
--
-- Requests models how a payload is parsed (VerifyServer/VerifyServer/NetSocketDataParse.cpp and
-- ClientSignupNetSocketDataParse.cpp), over what cJSON returns, which is a parameter.
--
-- Not modelled are SendData of the UDP socket, which only calls Windows, the service, which is
-- TightVNC's, the frames of other requests and operations, whose steps are abstract or empty, the
-- classes that pass SQL on to SQLite, the application object, which starts the parts one after
-- another, and the libraries that lie beside the code (cJSON, omnithread, SQLite, OpenSSL).
--
-- Tests holds the theorems at concrete inputs.
pub mod Prelude
pub mod Tcp
pub mod Buffer
pub mod MemPool
pub mod SqlQueue
pub mod CompletePort
pub mod UseCount
pub mod Udp
pub mod Receiver
pub mod GlobalFunc
pub mod Requests
mod Tests
