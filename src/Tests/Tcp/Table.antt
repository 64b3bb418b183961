-- ===== src/Tests/Tcp/Table.antt =====
-- The table of connections at concrete inputs.
use windows_verifyserver.Prelude.{◌≡◌, refl, [], ◌∷◌, ◌++◌, true, arith, inl}
use windows_verifyserver.Prelude.Counts.{count, erase_first}
use windows_verifyserver.Tcp.Connections.{
  release_context, Server, new_io, new_server, reading, accept, get_free_io_context,
  get_free_socket_context, add_free_io_context,
}
use windows_verifyserver.Tcp.Posting.{
  set_io, post_accept, process_accept, enter_client, start_receive, post_receive,
}
use windows_verifyserver.Tcp.Worker.{
  posted, ended, si_accept, worker_step, on_posted, on_ended, conn_of, serve_ended, dispatch,
  accept_next,
}
use windows_verifyserver.Tcp.Worker.Safety.{accepts, operation}
use windows_verifyserver.Tcp.Sending.Reach.{created, moved, serves}
use windows_verifyserver.Tcp.Table.{table, replay, opens, closes}
use windows_verifyserver.Tcp.Table.Refines.{worker_step-Follows}
use windows_verifyserver.Tcp.Table.History.{no_connections, Reach-table}
use windows_verifyserver.Tests.Tcp.{machine, machine-IsSound}
use windows_verifyserver.Tests.Tcp.Worker.{answers, one_open, one_open-Holds}

-- The server that has accepted one connection.
abbrev one_accepted : Server
one_accepted = record new_server {
  contexts = (record { conn_id = 1; sock = 44; addr = 9 }) ∷ [];
  io_store = record new_io { so = reading; sock_accept = 44 } ∷ [];
  in_flight = 0 ∷ [];
  clients = (1, 0) ∷ [];
  last_conn_id = 1;
  port = new_server.port ++ accept ∷ [];
}

abbrev one_ended : Server
one_ended = record one_open {
  in_flight = [];
  clients = [];
  free_sockets = 0 ∷ [];
  free_ios = 0 ∷ [];
  closed = 40 ∷ [];
}

-- The connection's read ends without a byte.
worker_step-Follows_example : table one_ended 1 ≡ replay (table one_open) (closes 1 ∷ []) 1
unfolding worker_step on_ended conn_of serve_ended add_free_io_context release_context erase_first
    count
worker_step-Follows_example =
    worker_step-Follows machine true answers one_open one_ended (ended 0 0 [] 0) []
      one_open-Holds.sockets refl 1

Reach-table_example : table one_accepted 1 ≡ replay no_connections (opens 1 44 9 ∷ []) 1
unfolding worker_step on_posted on_ended conn_of serve_ended dispatch process_accept enter_client
    start_receive post_receive set_io get_free_socket_context get_free_io_context post_accept
    accept_next erase_first count
Reach-table_example =
    Reach-table machine true machine-IsSound one_accepted
      (moved (accept_next answers new_server) one_accepted
        (moved new_server (accept_next answers new_server) created (
          serves answers (posted si_accept 0) (accept_next answers new_server) [] (accepts 0) refl))
        (serves answers (ended 0 0 [] 0) one_accepted []
          (operation 0 0 [] 0 _ refl (omega arith) (inl refl) (omega arith)) refl))
      1
