-- ===== src/Tests/Tcp/Connections.antt =====
-- The connections of the server at concrete inputs.
use windows_verifyserver.Prelude.{◌≡◌, ◌≤◌, refl, [], ◌∷◌, true, length, arith}
use windows_verifyserver.Tcp.Connections.{
  Server, new_io, new_server, release_context, add_free_socket_context, add_free_io_context,
  get_free_socket_context,
}
use windows_verifyserver.Tcp.Posting.{
  process_accept, start_receive, enter_client, post_receive, set_io,
}
use windows_verifyserver.Tcp.Connections.Race.{release_context-twice}
use windows_verifyserver.Tcp.Connections.Trim.{add_free_io_context-newest}

-- Two connections that are open.
abbrev pub open_two : Server
open_two = record {
  contexts =
      (record { conn_id = 1; sock = 40; addr = 7 })
      ∷ (record { conn_id = 2; sock = 44; addr = 8 })
      ∷ [];
  io_store = new_io ∷ new_io ∷ new_io ∷ [];
  in_flight = 1 ∷ [];
  clients = (2, 1) ∷ (1, 0) ∷ [];
  free_sockets = [];
  free_ios = 2 ∷ [];
  last_conn_id = 2;
  sent = [];
  port = [];
  closed = [];
  deleted = [];
}

-- A client connects and goes, and the next one gets its context.
reused :
    (process_accept true true
      (add_free_socket_context (process_accept true true new_server 0 40 7).0 1)
      0
      44
      8).0.clients
    ≡ (2, 0) ∷ []
unfolding process_accept release_context get_free_socket_context start_receive enter_client
    post_receive set_io
reused = refl

add_free_io_context-newest_example :
    ((add_free_io_context open_two 0).free_ios ≡ 2 ∷ 0 ∷ [])
    × (length (add_free_io_context open_two 0).free_ios ≤ 900)
add_free_io_context-newest_example = add_free_io_context-newest open_two 0

release_context-twice_example :
    ((release_context (release_context open_two 1 0) 1 0).free_sockets ≡ 0 ∷ 0 ∷ [])
    × ((release_context (release_context open_two 1 0) 1 0).closed ≡ 40 ∷ 40 ∷ [])
release_context-twice_example =
    release_context-twice open_two 1 0 (record { conn_id = 1; sock = 40; addr = 7 }) refl refl
      (omega arith)

-- The next two clients get the same context.
shared :
    let t = release_context (release_context open_two 1 0) 1 0 in
    (get_free_socket_context (get_free_socket_context t 3 48).0 4 52).1 ≡ 0
unfolding release_context get_free_socket_context
shared = refl
