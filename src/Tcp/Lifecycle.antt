-- ===== src/Tcp/Lifecycle.antt =====
-- Start and Stop of CTcpServer (VerifyServer/socket/tcpserver/TcpServer.cpp): the listening socket,
-- the completion port and the worker threads. Stop's waits for the clients and for the threads are
-- what worker threads do to the server in that time, an argument, and whether they all end.
pub mod Starts
pub mod Stops
pub mod Stuck
use windows_verifyserver.Prelude.{
  ℕ, zero, suc, ◌+◌, ◌*◌, ◌%◌, ◌^◌, List, [], ◌∷◌, ◌++◌, map, replicate, length, Option, none, some,
  Bool, true, false, ◌&&◌, ◌==◌, ltb, if◌then◌else◌,
}
use windows_verifyserver.Prelude.Counts.{count, erase_first}
use windows_verifyserver.Prelude.Results.{Result, ok, err, Fault, use_after_free, out_of_fuel}
use windows_verifyserver.Tcp.Connections.{
  Server, Event, accept, disconnect, new_server, find, close_socket,
}

-- The fields of CTcpServer that Start and Stop keep, and what Windows holds for it: the sockets and
-- the handles that are open, and of each thread that waits for a packet the port that it waits at.
pub record Life : Type 0 where
  pub server : Server
  pub running : Bool
  pub sock_listen : Option ℕ
  pub completion_port : Option ℕ
  pub workers : List ℕ
  pub has_receiver : Bool
  pub sockets : List ℕ
  pub handles : List ℕ
  pub waiting : List (ℕ × ℕ)

-- What Windows answers to Start: whether WSAStartup, bind, listen and the association of the socket
-- with the port succeed, the socket, the port and the threads that it makes, and its processors.
pub record Startup : Type 0 where
  pub ready : Bool
  pub sock : Option ℕ
  pub bound : Bool
  pub listens : Bool
  pub port : Option ℕ
  pub processors : ℕ
  pub threads : ℕ → Option ℕ
  pub attached : Bool

-- The constructor, which leaves m_sockListen as it is; nothing reads it before Start has set it.
abbrev pub new_life : Life
new_life = record {
  server = new_server;
  running = false;
  sock_listen = none;
  completion_port = none;
  workers = [];
  has_receiver = false;
  sockets = [];
  handles = [];
  waiting = [];
}

-- MAX_ACCEPT
abbrev pub max_accept : ℕ
max_accept = 256

-- `info.dwNumberOfProcessors * 2 + 2`, a DWORD
abbrev pub worker_count : ℕ → ℕ
worker_count processors = (processors * 2 + 2) % 2 ^ 32

-- `closesocket(m_sockListen)`, which leaves the member as it is.
abbrev pub close_listen : ℕ → Life → Life
close_listen sock l = record l { sockets = erase_first sock l.sockets }

-- The loop over _beginthreadex, for the threads from `i` on, that wait at `port`.
unfoldable pub start_threads : (ℕ → Option ℕ) → ℕ → ℕ → ℕ → Life → Life × Bool
start_threads threads port i zero l = (l, true)
start_threads threads port i (suc n) l = elim (threads i) [
  | none ↦ (l, false)
  | some h ↦ start_threads threads port (suc i) n (record l {
    workers = l.workers ++ h ∷ [];
    handles = h ∷ l.handles;
    waiting = (h, port) ∷ l.waiting;
  })
]

-- The end of Start: the first accepts are posted where the socket could be attached to the port.
unfoldable pub post_accepts : Bool → Life → Life
post_accepts attached l = record l {
  server = record l.server {
    port = l.server.port ++ (if attached then replicate max_accept accept else []);
  };
  running = true;
}

abbrev pub finish_start : Bool → Life × Bool → Life × Bool
finish_start attached r = elim r.1 [
  | false ↦ (r.0, false)
  | true ↦ (post_accepts attached r.0, true)
]

-- Start from `CreateIoCompletionPort` on.
unfoldable pub start_port : Startup → ℕ → Life → Life × Bool
start_port w sock l = elim w.port [
  | none ↦ (close_listen sock (record l { completion_port = none }), false)
  | some port ↦ finish_start w.attached (
      start_threads w.threads port 0 (worker_count w.processors)
        (record l { completion_port = some port; handles = port ∷ l.handles }))
]

-- CTcpServer::Start
unfoldable pub start : Startup → Bool → Life → Life × Bool
start w has_receiver l = elim l.running [
  | true ↦ (l, true)
  | false ↦ elim w.ready [
    | false ↦ (record l { has_receiver = has_receiver }, false)
    | true ↦ elim w.sock [
      | none ↦ (record l { has_receiver = has_receiver; sock_listen = none }, false)
      | some sock ↦
          let l' : Life = record l {
            has_receiver = has_receiver;
            sock_listen = some sock;
            sockets = sock ∷ l.sockets;
          } in
          elim (w.bound && w.listens) [
            | false ↦ (close_listen sock l', false)
            | true ↦ start_port w sock l'
          ]
    ]
  ]
]

-- A key among others in the order of the map.
unfoldable pub insert_key : ℕ → List ℕ → List ℕ
insert_key k [] = k ∷ []
insert_key k (x ∷ xs) = let rest = insert_key k xs in if ltb k x then k ∷ x ∷ xs else x ∷ rest

unfoldable pub keys : List (ℕ × ℕ) → List ℕ
keys [] = []
keys ((key, context) ∷ clients) = insert_key key (keys clients)

-- Stop up to its waits: the listening socket is closed, and each client is to be disconnected.
unfoldable pub close_all : Life → Life
close_all l =
    let l' : Life = record l {
      sock_listen = none;
      sockets = elim l.sock_listen [ none ↦ l.sockets | some s ↦ erase_first s l.sockets ];
    } in
    record l' {
      server = record l'.server {
        port = l'.server.port ++ map disconnect (keys l'.server.clients);
      };
    }

-- Whether a thread gets one of the exit packets that Stop posts to the port, one for each of the
-- workers: where it waits at that port, or has ended.
abbrev pub ends : Option ℕ → Option ℕ → Bool
ends port none = true
ends none (some q) = false
ends (some p) (some q) = q == p

unfoldable pub all_end : Option ℕ → List (ℕ × ℕ) → List ℕ → Bool
all_end port waiting [] = true
all_end port waiting (h ∷ workers) = ends port (find waiting h) && all_end port waiting workers

-- CloseHandle for each of the threads.
unfoldable pub close_handles : List ℕ → List ℕ → List ℕ
close_handles [] handles = handles
close_handles (h ∷ workers) handles = close_handles workers (erase_first h handles)

-- The threads that are not among the workers.
unfoldable pub others : List ℕ → List (ℕ × ℕ) → List (ℕ × ℕ)
others workers [] = []
others workers ((h, q) ∷ waiting) =
    let rest = others workers waiting in if ltb 0 (count h workers) then rest else (h, q) ∷ rest

-- The loop that deletes the clients, whose iterator stays at the first of them.
unfoldable pub delete_clients : ℕ → List (ℕ × ℕ) → List ℕ → Server → Result Server
delete_clients zero clients deleted s = err out_of_fuel
delete_clients (suc fuel) [] deleted s = ok s
delete_clients (suc fuel) ((key, context) ∷ clients) deleted s =
    elim (ltb 0 (count context deleted)) [
      | true ↦ err use_after_free
      | false ↦
          delete_clients fuel ((key, context) ∷ clients) (context ∷ deleted)
            (close_socket s context)
    ]

-- Stop after the clients are deleted.
abbrev pub release : Life → Server → Life
release l s = record l {
  server = record s { clients = []; free_sockets = []; free_ios = []; last_conn_id = 0; port = [] };
  handles = elim l.completion_port [ none ↦ l.handles | some q ↦ erase_first q l.handles ];
  completion_port = none;
  running = false;
}

-- Stop returns, or it waits for ever, or it reads what is deleted.
pub data Stopped : Type 0 where
  returns : Life → Stopped
  waits : Stopped
  faults : Fault → Stopped

abbrev pub released : Life → Result Server → Stopped
released l (ok s) = returns (release l s)
released l (err e) = faults e

-- After the threads have ended.
abbrev pub reaped : Life → Life
reaped l = record l {
  workers = [];
  handles = close_handles l.workers l.handles;
  waiting = others l.workers l.waiting;
}

-- Stop from the exit packets on.
unfoldable pub end_threads : Life → Stopped
end_threads l = elim (all_end l.completion_port l.waiting l.workers) [
  | false ↦ waits
  | true ↦ released (reaped l) (delete_clients 2 l.server.clients [] l.server)
]

-- CTcpServer::Stop, where `during` is what the worker threads make of the server while Stop waits.
unfoldable pub stop : (Server → Server) → Life → Stopped
stop during l = elim l.running [
  | false ↦ returns l
  | true ↦ let l' = close_all l in end_threads (record l' { server = during l'.server })
]
