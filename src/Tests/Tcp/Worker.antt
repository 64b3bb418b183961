-- ===== src/Tests/Tcp/Worker.antt =====
-- A worker thread at concrete inputs.
use windows_verifyserver.Prelude.{◌≡◌, refl, [], ◌∷◌, true, arith}
use windows_verifyserver.Prelude.Counts.{count, erase_first}
use windows_verifyserver.Prelude.Memory.{copy_at, slice}
use windows_verifyserver.Prelude.Results.{ok}
use windows_verifyserver.Tcp.Packet.{get_packet_len, sum_bytes}
use windows_verifyserver.Tcp.Packet.Layout.{packet, bytes}
use windows_verifyserver.Tcp.Receive.{
  clean, receive, save_data, save_step, save_rest, next_packet, complete, extend, join_head,
  keep_head, begin_packet, finish_packet, collect,
}
use windows_verifyserver.Tcp.Connections.{Server, new_io, reading}
use windows_verifyserver.Tcp.Posting.{process_receive, post_receive, set_io, next_receive}
use windows_verifyserver.Tcp.Worker.{
  Answers, ended, goes_on, worker_step, on_ended, conn_of, serve_ended, dispatch,
}
use windows_verifyserver.Tcp.Worker.Holds.{Holds, new_io-IsReady}
use windows_verifyserver.Tcp.Receive.Position.{deliveries}
use windows_verifyserver.Tests.Tcp.{machine, hi}

-- One connection, with a read that Windows works on.
abbrev pub one_open : Server
one_open = record {
  contexts = (record { conn_id = 1; sock = 40; addr = 7 }) ∷ [];
  io_store = record new_io { so = reading } ∷ [];
  in_flight = 0 ∷ [];
  clients = (1, 0) ∷ [];
  free_sockets = [];
  free_ios = [];
  last_conn_id = 1;
  sent = [];
  port = [];
  closed = [];
  deleted = [];
}

abbrev pub answers : Answers
answers = record { created = 44; started = true; attached = true; peer = 9 }

pub one_open-Holds : Holds [] one_open
unfolding count
one_open-Holds = record {
  ios = λ i. ground arith;
  sockets = λ i. ground arith;
  ready = (new_io-IsReady, tt);
}

-- A packet comes whole: its payload goes to the receiver, and the next read begins.
arrives :
    worker_step machine true answers one_open (ended 0 0 (bytes (packet 50 hi)) 0)
    ≡ ok (
        goes_on
          (record one_open {
            io_store =
                (record new_io { so = reading; assembly = record clean { conn_id = 1 } }) ∷ [];
          })
          (deliveries machine 1 (packet 50 hi ∷ [])))
unfolding worker_step on_ended conn_of serve_ended dispatch process_receive next_receive
    post_receive set_io receive save_data save_step save_rest next_packet complete extend join_head
    keep_head begin_packet finish_packet collect copy_at slice get_packet_len sum_bytes erase_first
    count
arrives = refl
