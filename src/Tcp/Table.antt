-- ===== src/Tcp/Table.antt =====
-- What CTcpServer (VerifyServer/socket/tcpserver/TcpServer.cpp) is to its clients: a table of the open
-- connections. The contexts, their reuse and their numbers on the heap are not seen in it.
pub mod Entry
pub mod Passes
pub mod Ended
pub mod Refines
pub mod History
use windows_verifyserver.Prelude.{
  ℕ, List, [], ◌∷◌, ◌++◌, Option, none, some, Bool, true, false, ◌||◌, ◌==◌, if◌then◌else◌,
  get_elem?,
}
use windows_verifyserver.Tcp.Connections.{
  Server, SocketContext, Io, idle, accepting, reading, writing, find,
}
use windows_verifyserver.Tcp.Posting.{next_conn_id}
use windows_verifyserver.Tcp.Worker.{
  Completion, posted, ended, Answers, si_disconnect, io_pending, not_a_socket, aborted, is_accept,
}

-- For the number of each open connection its socket and the address of its peer.
abbrev pub Table : Type 0
Table = ℕ → Option (ℕ × ℕ)

pub data Change : Type 0 where
  opens : ℕ → ℕ → ℕ → Change
  closes : ℕ → Change

-- The table with another entry for one number.
abbrev pub update : Table → ℕ → Option (ℕ × ℕ) → Table
update t id entry other = if id == other then entry else t other

abbrev pub change : Table → Change → Table
change t (opens id sock addr) = update t id (some (sock, addr))
change t (closes id) = update t id none

abbrev pub replay : Table → List Change → Table
replay t [] = t
replay t (c ∷ later) = replay (change t c) later

-- What a SOCKET_CONTEXT on the heap holds of a connection.
abbrev pub entry : List SocketContext → Option ℕ → Option (ℕ × ℕ)
entry contexts none = none
entry contexts (some context) = elim (get_elem? contexts context) [
  | none ↦ none
  | some c ↦ some (c.sock, c.addr)
]

-- The table that a server stands for.
abbrev pub table : Server → Table
table s id = entry s.contexts (find s.clients id)

-- The connection that an operation belongs to.
abbrev pub owner : Server → Io → ℕ → ℕ
owner s c key =
    if is_accept c.so then 0 else elim (get_elem? s.contexts key) [ none ↦ 0 | some x ↦ x.conn_id ]

-- What an operation without an error changes: an accept opens a connection, and closes it where its
-- socket cannot be attached; a read of nothing is the end of its connection, as is one that no read
-- can follow.
abbrev pub done_changes : Answers → ℕ → Io → ℕ → List ℕ → List Change
done_changes a next c id bytes = elim c.so [
  | accepting ↦ opens next c.sock_accept a.peer ∷ (if a.attached then [] else closes next ∷ [])
  | reading ↦ elim bytes [
    | [] ↦ closes id ∷ []
    | (x ∷ xs) ↦ if a.started then [] else closes id ∷ []
  ]
  | writing ↦ elim bytes [ [] ↦ closes id ∷ [] | (x ∷ xs) ↦ [] ]
  | idle ↦ elim bytes [ [] ↦ closes id ∷ [] | (x ∷ xs) ↦ [] ]
]

-- What one with an error changes: it closes its connection, but for an accept, for an operation that
-- still runs, and for a socket that is closed already.
abbrev pub failed_changes : Io → ℕ → ℕ → List Change
failed_changes c id error =
    if is_accept c.so || (error == io_pending || (error == not_a_socket || error == aborted))
    then []
    else closes id ∷ []

-- What a completion changes in the table.
abbrev pub changes : Answers → Server → Completion → List Change
changes a s (posted bytes key) = if bytes == si_disconnect then closes key ∷ [] else []
changes a s (ended io key bytes error) = elim (get_elem? s.io_store io) [
  | none ↦ []
  | some c ↦
      if error == 0
      then done_changes a (next_conn_id s.last_conn_id) c (owner s c key) bytes
      else failed_changes c (owner s c key) error
]
