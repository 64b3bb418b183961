-- ===== src/Tcp/Posting.antt =====
-- How CTcpServer (VerifyServer/socket/tcpserver/TcpServer.cpp) hands IO_CONTEXTs to Windows, and
-- what it does when an operation has completed. A Bool is an answer of Windows.
use windows_verifyserver.Prelude.{
  ℕ, List, [], ◌∷◌, ◌++◌, none, some, Bool, true, false, ◌==◌, if◌then◌else◌, length, get_elem?,
  set, take,
}
use windows_verifyserver.Prelude.Word.{add32}
use windows_verifyserver.Prelude.Results.{Result, ok, ◌>>=◌, or_fault, null_pointer}
use windows_verifyserver.Tcp.Platform.{Platform}
use windows_verifyserver.Tcp.Receive.{Delivery, receive}
use windows_verifyserver.Tcp.Connections.{
  Server, Io, accepting, reading, writing, accept, disconnect, max_buffer, find_socket_context,
  add_client_socket, get_free_socket_context, add_free_io_context, add_free_socket_context,
}

-- CTcpServer::Disconnect with bForce; `posted` is the answer of PostQueuedCompletionStatus.
unfoldable pub disconnect_client : Bool → Server → ℕ → Server × Bool
disconnect_client posted s conn_id = elim (find_socket_context s conn_id) [
  | none ↦ (s, false)
  | some context ↦
      if posted then (record s { port = s.port ++ disconnect conn_id ∷ [] }, true) else (s, false)
]

-- An IO_CONTEXT after an assignment to its fields.
unfoldable pub set_io : Server → ℕ → (Io → Io) → Server
set_io s io f = elim (get_elem? s.io_store io) [
  | none ↦ s
  | some c ↦ record s { io_store = set s.io_store io (f c) }
]

-- Windows works on it if the call has not failed.
abbrev pub post : Bool → Server → ℕ → Server × Bool
post started s io =
    if started then (record s { in_flight = io ∷ s.in_flight }, true) else (s, false)

-- CTcpServer::PostAccept; the result is whether it returns 0.
unfoldable pub post_accept : Bool → Server → ℕ → ℕ → Server × Bool
post_accept started s io sock =
    post started (set_io s io λ c. record c { so = accepting; sock_accept = sock }) io

-- What WSASend is given.
abbrev pub outgoing : Server → ℕ → List (ℕ × List ℕ)
outgoing s io = elim (get_elem? s.io_store io) [
  | none ↦ []
  | some c ↦ (c.sock_accept, take c.len c.buf) ∷ []
]

-- CTcpServer::PostSend
unfoldable pub post_send : Bool → Server → ℕ → Server × Bool
post_send started s io =
    let s' = set_io s io λ c. record c { so = writing } in
    post started (if started then record s' { sent = s'.sent ++ outgoing s' io } else s') io

-- CTcpServer::PostReceive
unfoldable pub post_receive : Bool → Server → ℕ → Server × Bool
post_receive started s io =
    post started (set_io s io λ c. record c { so = reading; len = max_buffer }) io

-- The connection's number in ProcessAccept.
abbrev pub next_conn_id : ℕ → ℕ
next_conn_id last = if add32 last 1 == 0 then add32 (add32 last 1) 1 else add32 last 1

-- `memcpy(&pSock->addr, pRemoteAddr, sizeof(SOCKADDR_IN))`
abbrev pub set_addr : Server → ℕ → ℕ → Server
set_addr s context peer = elim (get_elem? s.contexts context) [
  | none ↦ s
  | some c ↦ record s { contexts = set s.contexts context (record c { addr = peer }) }
]

-- The end of ProcessAccept: whether the socket could be attached to the completion port, and whether
-- a read could be started.
unfoldable pub start_receive : Bool → Bool → Server → ℕ → ℕ → Server × Bool
start_receive attached started s conn_id io = elim attached [
  | false ↦ (add_free_io_context (add_free_socket_context s conn_id) io, false)
  | true ↦
      let r = post_receive started s io in (if r.1 then r.0 else add_free_io_context r.0 io, true)
]

-- The new connection in ProcessAccept, and its SOCKET_CONTEXT.
unfoldable pub enter_client : Server → ℕ → ℕ → Server × ℕ
enter_client s sock peer =
    let conn_id = next_conn_id s.last_conn_id in
    let got =
      get_free_socket_context (record s { port = s.port ++ accept ∷ []; last_conn_id = conn_id })
        conn_id sock in
    (add_client_socket (set_addr got.0 got.1 peer) conn_id got.1, got.1)

-- CTcpServer::ProcessAccept, for the socket that `io` accepted; false for -1.
unfoldable pub process_accept : Bool → Bool → Server → ℕ → ℕ → ℕ → Server × Bool
process_accept attached started s io sock peer =
    start_receive attached started (enter_client s sock peer).0 (next_conn_id s.last_conn_id) io

-- CTcpServer::ProcessSend
abbrev pub process_send : Server → ℕ → Server
process_send = add_free_io_context

-- The end of ProcessReceive: the next read.
unfoldable pub next_receive : Bool → Server → ℕ → ℕ → Server
next_receive started s conn_id io =
    let r = post_receive started s io in
    if r.1 then r.0 else add_free_io_context (add_free_socket_context r.0 conn_id) io

-- CTcpServer::ProcessReceive for the bytes of a completed read, on the connection `conn_id` that the
-- SOCKET_CONTEXT names.
unfoldable pub process_receive :
    Platform → Bool → Bool → Server → ℕ → ℕ → List ℕ → Result (Server × List Delivery)
process_receive p receiver started s conn_id io bytes = do
  c ← or_fault (get_elem? s.io_store io) null_pointer
  (assembly, out) ← receive p receiver conn_id c.assembly bytes
  let s' = set_io s io λ c'. record c' { assembly = assembly; len = length bytes }
  ok (next_receive started s' conn_id io, out)
