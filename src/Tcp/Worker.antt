-- ===== src/Tcp/Worker.antt =====
-- CTcpServer::WorkerThreadProc (VerifyServer/socket/tcpserver/TcpServer.cpp): what a worker thread
-- does with one completion packet.
pub mod Holds
pub mod Steps
pub mod Safety
use windows_verifyserver.Prelude.{
  ℕ, zero, suc, List, [], ◌∷◌, ◌++◌, none, some, Bool, true, false, ◌&&◌, ◌||◌, ◌==◌, ltb,
  if◌then◌else◌, get_elem?, not,
}
use windows_verifyserver.Prelude.Counts.{count, erase_first}
use windows_verifyserver.Prelude.Results.{
  Result, ok, err, ◌>>=◌, or_fault, null_pointer, use_after_free,
}
use windows_verifyserver.Tcp.Platform.{Platform}
use windows_verifyserver.Tcp.Receive.{Delivery}
use windows_verifyserver.Tcp.Connections.{
  Server, Io, Operation, idle, accepting, reading, writing, accept, find_socket_context,
  get_free_io_context, add_free_io_context, add_free_socket_context,
}
use windows_verifyserver.Tcp.Posting.{post_accept, process_accept, process_send, process_receive}

-- What GetQueuedCompletionStatus hands over: a packet of the server's own with its dwBytes and its
-- key, or an operation that has ended, with the IO_CONTEXT, the key, the bytes that were read (or
-- as many as were written), and the error that WSAGetOverlappedResult gives, 0 for none.
pub data Completion : Type 0 where
  posted : ℕ → ℕ → Completion
  ended : ℕ → ℕ → List ℕ → ℕ → Completion

-- What Windows answers while the completion is served: the socket that WSASocket makes, whether the
-- next operation could be started, whether the accepted socket could be attached to the completion
-- port, and the address of the peer.
pub record Answers : Type 0 where
  pub created : ℕ
  pub started : Bool
  pub attached : Bool
  pub peer : ℕ

-- IOCP_SI_EXIT, IOCP_SI_ACCEPT, IOCP_SI_DISCONNECT
abbrev pub si_exit : ℕ
si_exit = 0

abbrev pub si_accept : ℕ
si_accept = 0xffff_fff1

abbrev pub si_disconnect : ℕ
si_disconnect = 0xffff_fff3

-- WSA_IO_PENDING, WSAENOTSOCK, ERROR_OPERATION_ABORTED
abbrev pub io_pending : ℕ
io_pending = 997

abbrev pub not_a_socket : ℕ
not_a_socket = 10038

abbrev pub aborted : ℕ
aborted = 995

-- The loop goes on, with what was delivered, or the thread ends.
pub data Step : Type 0 where
  goes_on : Server → List Delivery → Step
  exits : Server → Step

abbrev pub is_accept : Operation → Bool
is_accept accepting = true
is_accept idle = false
is_accept reading = false
is_accept writing = false

-- The answer to IOCP_SI_ACCEPT.
unfoldable pub accept_next : Answers → Server → Server
accept_next a s =
    let got = get_free_io_context s in
    let r = post_accept a.started got.0 got.1 a.created in
    if r.1
    then r.0
    else add_free_io_context (record r.0 { closed = r.0.closed ++ a.created ∷ [] }) got.1

-- The answer to IOCP_SI_DISCONNECT.
abbrev pub on_disconnect : Server → ℕ → Server
on_disconnect s conn_id = elim (find_socket_context s conn_id) [
  | none ↦ s
  | some context ↦ add_free_socket_context s conn_id
]

-- `pSock->connID`, but for an accept. The key of the completion is a pointer to a SOCKET_CONTEXT, which
-- AddFreeSocketContext may have deleted since the operation began.
unfoldable pub conn_of : Server → Io → ℕ → Result ℕ
conn_of s c key = elim (is_accept c.so) [
  | true ↦ ok 0
  | false ↦ elim (ltb 0 (count key s.deleted)) [
    | true ↦ err use_after_free
    | false ↦ elim (get_elem? s.contexts key) [ none ↦ err null_pointer | some x ↦ ok x.conn_id ]
  ]
]

-- An operation that has ended with an error.
unfoldable pub on_error : Server → ℕ → Io → ℕ → ℕ → Server
on_error s io c conn_id error =
    add_free_io_context
      (if is_accept c.so
        then record s { closed = s.closed ++ c.sock_accept ∷ []; port = s.port ++ accept ∷ [] }
        else (if error == not_a_socket || error == aborted
            then s
            else add_free_socket_context s conn_id))
      io

-- The switch over the operation.
unfoldable pub dispatch :
    Platform → Bool → Answers → Server → ℕ → Io → ℕ → List ℕ → Result (Server × List Delivery)
dispatch p receiver a s io c conn_id bytes = elim c.so [
  | accepting ↦ ok ((process_accept a.attached a.started s io c.sock_accept a.peer).0, [])
  | reading ↦ process_receive p receiver a.started s conn_id io bytes
  | writing ↦ ok (process_send s io, [])
  | idle ↦ ok (s, [])
]

-- What is done once the connection and the error are known.
unfoldable pub serve_ended :
    Platform → Bool → Answers → Server → ℕ → Io → ℕ → List ℕ → ℕ → Result (Server × List Delivery)
serve_ended p receiver a s io c conn_id bytes error = elim (error == 0) [
  | false ↦ elim (error == io_pending) [
    | true ↦ ok (s, [])
    | false ↦ ok (on_error s io c conn_id error, [])
  ]
  | true ↦ elim bytes [
    | [] ↦ elim (is_accept c.so) [
      | true ↦ dispatch p receiver a s io c conn_id []
      | false ↦ ok (add_free_io_context (add_free_socket_context s conn_id) io, [])
    ]
    | (x ∷ xs) ↦ dispatch p receiver a s io c conn_id (x ∷ xs)
  ]
]

-- An operation that has ended: Windows hands its IO_CONTEXT back.
unfoldable pub on_ended :
    Platform → Bool → Answers → Server → ℕ → ℕ → List ℕ → ℕ → Result (Server × List Delivery)
on_ended p receiver a s io key bytes error = do
  let s' : Server = record s { in_flight = erase_first io s.in_flight }
  c ← or_fault (get_elem? s.io_store io) null_pointer
  conn_id ← conn_of s c key
  serve_ended p receiver a s' io c conn_id bytes error

-- A packet of the server's own. One that is none of the three is taken for an IO_CONTEXT at NULL.
unfoldable pub on_posted : Answers → Server → ℕ → ℕ → Result Step
on_posted a s bytes key =
    if bytes == si_accept
    then ok (goes_on (accept_next a s) [])
    else (if bytes == si_disconnect
        then ok (goes_on (on_disconnect s key) [])
        else (if bytes == si_exit && key == 0 then ok (exits s) else err null_pointer))

-- One pass of WorkerThreadProc's loop.
unfoldable pub worker_step : Platform → Bool → Answers → Server → Completion → Result Step
worker_step p receiver a s (posted bytes key) = on_posted a s bytes key
worker_step p receiver a s (ended io key bytes error) =
    on_ended p receiver a s io key bytes error >>= λ r. ok (goes_on r.0 r.1)
