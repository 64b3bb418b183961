-- ===== src/Tcp/Connections.antt =====
-- The connections of CTcpServer (VerifyServer/socket/tcpserver/TcpServer.cpp): the map of clients
-- and the free lists of contexts. A context is named by its place in the order of creation; each
-- operation runs under the lock of what it changes. What Windows answers is an argument.
pub mod Race
pub mod Trim
pub mod Clients
use windows_verifyserver.Prelude.{
  ℕ, zero, suc, ◌+◌, List, [], ◌∷◌, ◌++◌, Option, none, some, Bool, true, false, ltb, ◌==◌,
  if◌then◌else◌, length, get_elem?, set, replicate,
}
use windows_verifyserver.Tcp.Receive.{Assembly, clean}

-- SOCKET_CONTEXT, the address as a number
pub record SocketContext : Type 0 where
  pub conn_id : ℕ
  pub sock : ℕ
  pub addr : ℕ

-- ESocketOperation, as far as it is used
pub data Operation : Type 0 where
  idle : Operation
  accepting : Operation
  reading : Operation
  writing : Operation

-- IO_CONTEXT: `buf` is szBuf and `len` is wsaBuf.len. writeBuf and ol are not looked at.
pub record Io : Type 0 where
  pub so : Operation
  pub sock_accept : ℕ
  pub buf : List ℕ
  pub len : ℕ
  pub assembly : Assembly

-- What the server posts to its own completion port.
pub data Event : Type 0 where
  accept : Event
  disconnect : ℕ → Event
  packet : ℕ → Event

-- CTcpServer. `contexts` and `io_store` are the heaps of the SOCKET_CONTEXTs and the IO_CONTEXTs,
-- `in_flight` the IO_CONTEXTs that Windows works on, `sent` what it was given to send, `port` what
-- was posted, and `closed` the sockets that were closed.
pub record Server : Type 0 where
  pub contexts : List SocketContext
  pub io_store : List Io
  pub in_flight : List ℕ
  pub clients : List (ℕ × ℕ)
  pub free_sockets : List ℕ
  pub free_ios : List ℕ
  pub last_conn_id : ℕ
  pub sent : List (ℕ × List ℕ)
  pub port : List Event
  pub closed : List ℕ
  pub deleted : List ℕ

-- MAX_BUFFER
abbrev pub max_buffer : ℕ
max_buffer = 1024

-- INVALID_SOCKET
abbrev pub invalid_socket : ℕ
invalid_socket = 0xffff_ffff

-- _IO_CONTEXT::_IO_CONTEXT
abbrev pub new_io : Io
new_io = record {
  so = idle;
  sock_accept = invalid_socket;
  buf = replicate max_buffer 0;
  len = max_buffer;
  assembly = clean;
}

-- CTcpServer::CTcpServer
abbrev pub free_socket_pool : ℕ
free_socket_pool = 150

abbrev pub free_socket_hold : ℕ
free_socket_hold = 450

abbrev pub free_io_pool : ℕ
free_io_pool = 300

abbrev pub free_io_hold : ℕ
free_io_hold = 900

abbrev pub new_server : Server
new_server = record {
  contexts = [];
  io_store = [];
  in_flight = [];
  clients = [];
  free_sockets = [];
  free_ios = [];
  last_conn_id = 0;
  sent = [];
  port = [];
  closed = [];
  deleted = [];
}

-- `m_mpClientSocket.find`
abbrev pub find : List (ℕ × ℕ) → ℕ → Option ℕ
find [] id = none
find ((key, context) ∷ clients) id = if key == id then some context else find clients id

-- `m_mpClientSocket.erase`
abbrev pub erase : List (ℕ × ℕ) → ℕ → List (ℕ × ℕ)
erase [] id = []
erase ((key, context) ∷ clients) id =
    let rest = erase clients id in if key == id then rest else (key, context) ∷ rest

-- The loop that takes contexts off the front of a free list; these are deleted.
abbrev pub pop_to : ℕ → List ℕ → List ℕ
pop_to pool [] = []
pop_to pool (x ∷ xs) =
    let rest = pop_to pool xs in if ltb pool (length (x ∷ xs)) then rest else x ∷ xs

-- The contexts that it deletes.
abbrev pub popped : ℕ → List ℕ → List ℕ
popped pool [] = []
popped pool (x ∷ xs) =
    let rest = popped pool xs in if ltb pool (length (x ∷ xs)) then x ∷ rest else []

-- A free list with one context more.
abbrev pub give_back : ℕ → ℕ → List ℕ → ℕ → List ℕ
give_back hold pool free x =
    if ltb hold (length (free ++ x ∷ [])) then pop_to pool (free ++ x ∷ []) else free ++ x ∷ []

-- The contexts that are deleted for it.
abbrev pub trimmed : ℕ → ℕ → List ℕ → ℕ → List ℕ
trimmed hold pool free x =
    if ltb hold (length (free ++ x ∷ [])) then popped pool (free ++ x ∷ []) else []

-- CTcpServer::FindSocketContext
abbrev pub find_socket_context : Server → ℕ → Option ℕ
find_socket_context s conn_id = find s.clients conn_id

-- CTcpServer::AddClientSocket
abbrev pub add_client_socket : Server → ℕ → ℕ → Server
add_client_socket s conn_id context = record s {
  clients = (conn_id, context) ∷ erase s.clients conn_id;
}

-- CTcpServer::GetFreeSocketContext; the address stays what it was.
unfoldable pub get_free_socket_context : Server → ℕ → ℕ → Server × ℕ
get_free_socket_context s conn_id sock = elim s.free_sockets [
  | [] ↦ (
    record s {
      contexts = s.contexts ++ (record { conn_id = conn_id; sock = sock; addr = 0 }) ∷ [];
    },
    length s.contexts,
  )
  | (x ∷ free) ↦ (
    record s {
      contexts = elim (get_elem? s.contexts x) [
        | none ↦ s.contexts
        | some c ↦ set s.contexts x (record c { conn_id = conn_id; sock = sock })
      ];
      free_sockets = free;
    },
    x,
  )
]

-- CTcpServer::GetFreeIOContext
unfoldable pub get_free_io_context : Server → Server × ℕ
get_free_io_context s = elim s.free_ios [
  | [] ↦ (record s { io_store = s.io_store ++ new_io ∷ [] }, length s.io_store)
  | (x ∷ free) ↦ (record s { free_ios = free }, x)
]

-- CTcpServer::AddFreeIOContext
unfoldable pub add_free_io_context : Server → ℕ → Server
add_free_io_context s io = record s { free_ios = give_back free_io_hold free_io_pool s.free_ios io }

-- `ManualCloseSocket(pSock->sock)`
abbrev pub close_socket : Server → ℕ → Server
close_socket s context = elim (get_elem? s.contexts context) [
  | none ↦ s
  | some c ↦ record s { closed = s.closed ++ c.sock ∷ [] }
]

-- What AddFreeSocketContext does with the context that it has found, in another critical section than
-- the one in which it looks for it.
unfoldable pub release_context : Server → ℕ → ℕ → Server
release_context s conn_id context =
    let s' = close_socket s context in
    record s' {
      clients = erase s'.clients conn_id;
      free_sockets = give_back free_socket_hold free_socket_pool s'.free_sockets context;
      deleted = s'.deleted ++ trimmed free_socket_hold free_socket_pool s'.free_sockets context;
    }

-- CTcpServer::AddFreeSocketContext, without a step of another thread in between.
abbrev pub add_free_socket_context : Server → ℕ → Server
add_free_socket_context s conn_id = elim (find_socket_context s conn_id) [
  | none ↦ s
  | some context ↦ release_context s conn_id context
]
