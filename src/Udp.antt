-- ===== src/Udp.antt =====
-- CUDPSocket (VerifyServer/socket/UdpSocket/UDPSocket.cpp), the build for Windows: its socket and its
-- receiving thread. What Windows answers is an argument.
pub mod Life
pub mod Failures
use windows_verifyserver.Prelude.{
  ℕ, suc, ◌+◌, ◌≡◌, List, [], ◌∷◌, ◌++◌, Bool, true, false, ◌&&◌, ◌==◌, if◌then◌else◌,
}

-- CUDPSocket: `handle` tells whether m_hRevThread is a thread's handle, `running` whether that thread
-- runs, `begun` counts the threads that have begun, `delivered` is what rev_data was given, `closed`
-- the sockets that were closed, and `cleanups` the calls of WSACleanup.
pub record UdpSocket : Type 0 where
  pub receiver : Bool
  pub sock_server : ℕ
  pub stop_rev_thread : Bool
  pub handle : Bool
  pub running : Bool
  pub begun : ℕ
  pub delivered : List (List ℕ)
  pub closed : List ℕ
  pub cleanups : ℕ

-- CUDPSocket::CUDPSocket, where WSAStartup succeeds
abbrev pub new_socket : Bool → UdpSocket
new_socket receiver = record {
  receiver = receiver;
  sock_server = 0;
  stop_rev_thread = false;
  handle = false;
  running = false;
  begun = 0;
  delivered = [];
  closed = [];
  cleanups = 0;
}

-- What Windows answers to a Start: the socket it makes, whether the two options can be set, and whether
-- a thread begins.
pub record Answers : Type 0 where
  pub made : ℕ
  pub broadcast : Bool
  pub timeout : Bool
  pub begins : Bool

-- The -1 that `socket` returns, as a SOCKET.
abbrev pub no_socket : ℕ
no_socket = 0xffff_ffff

-- CUDPSocket::_InitBroadcastSocket. SOCKET is unsigned, so that `> 0` is `≠ 0`.
unfoldable pub init_broadcast_socket : Answers → UdpSocket → UdpSocket × Bool
init_broadcast_socket a s = elim (s.sock_server == 0) [
  | false ↦ (s, true)
  | true ↦
      let s' : UdpSocket = record s { sock_server = a.made } in
      if a.made == no_socket
      then (s', false)
      else (if a.broadcast && a.timeout
          then (s', true)
          else (record s' { closed = s'.closed ++ a.made ∷ [] }, false))
]

-- CUDPSocket::_WantStopThread
abbrev pub want_stop_thread : UdpSocket → UdpSocket
want_stop_thread s = record s { stop_rev_thread = true }

-- What _RevThread does with the bytes of a datagram, or with none where recvfrom fails.
abbrev pub deliver : UdpSocket → List ℕ → UdpSocket
deliver s [] = s
deliver s (x ∷ xs) = if s.receiver then record s { delivered = s.delivered ++ (x ∷ xs) ∷ [] } else s

-- One pass of the loop in _RevThread.
unfoldable pub rev_pass : UdpSocket → List ℕ → UdpSocket
rev_pass s bytes =
    let s' = deliver s bytes in if s.stop_rev_thread then record s' { running = false } else s'

-- WaitForSingleObject on the receiving thread, after _WantStopThread: the thread comes to the end of
-- its pass, with the bytes that it reads.
abbrev pub wait : UdpSocket → List ℕ → UdpSocket
wait s bytes = if s.handle && s.running then rev_pass s bytes else s

-- The end of _StartRecive.
abbrev pub begin_thread : Answers → UdpSocket → UdpSocket × Bool
begin_thread a s =
    if a.begins
    then (record s { handle = true; running = true; begun = suc s.begun }, true)
    else (record s { handle = false }, false)

-- CUDPSocket::_StartRecive; a SOCKET is never below 0.
unfoldable pub start_recive : Answers → UdpSocket → List ℕ → UdpSocket × Bool
start_recive a s bytes = begin_thread a (wait (want_stop_thread s) bytes)

-- CUDPSocket::Start
unfoldable pub start : Answers → UdpSocket → List ℕ → UdpSocket × Bool
start a s bytes =
    let r = init_broadcast_socket a s in
    elim r.1 [ false ↦ (r.0, false) | true ↦ start_recive a r.0 bytes ]

-- CUDPSocket::Stop; the result is that of closesocket and WSACleanup.
unfoldable pub stop : UdpSocket → List ℕ → UdpSocket
stop s bytes =
    let s' = wait (want_stop_thread s) bytes in
    record s' { closed = s'.closed ++ s'.sock_server ∷ []; cleanups = suc s'.cleanups }

-- What happens to a CUDPSocket: its operations, and the passes of its thread.
pub data Moves (s : UdpSocket) : UdpSocket → Type 0 where
  starts : (a : Answers) (bytes : List ℕ) → Moves s (start a s bytes).0
  passes : (bytes : List ℕ) → s.running ≡ true → Moves s (rev_pass s bytes)
  stops : (bytes : List ℕ) → Moves s (stop s bytes)

pub data Reach (receiver : Bool) : UdpSocket → Type 0 where
  created : Reach receiver (new_socket receiver)
  moved : (s t : UdpSocket) → Reach receiver s → Moves s t → Reach receiver t
