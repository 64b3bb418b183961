-- ===== src/Tcp/Sending.antt =====
-- Send, SendEx and _send of CTcpServer (VerifyServer/socket/tcpserver/TcpServer.cpp).
pub mod Wire
pub mod Sends
pub mod Delivery
pub mod Reach
pub mod Text
use windows_verifyserver.Prelude.{
  ℕ, zero, suc, ◌+◌, ◌-◌, List, [], ◌∷◌, ◌++◌, Option, none, some, Bool, true, false, ◌==◌,
  if◌then◌else◌, length, get_elem?, take, drop, replicate, min,
}
use windows_verifyserver.Prelude.Memory.{copy_at, slice}
use windows_verifyserver.Prelude.Results.{
  Result, ok, err, ◌>>=◌, or_fault, out_of_bounds, bad_alloc, null_pointer, out_of_fuel,
}
use windows_verifyserver.Tcp.Platform.{Platform}
use windows_verifyserver.Tcp.Packet.{prepare_send_buf}
use windows_verifyserver.Tcp.Connections.{
  Server, Io, writing, packet, max_buffer, find_socket_context, get_free_io_context,
  add_free_io_context,
}
use windows_verifyserver.Tcp.Posting.{set_io, post_send}

-- What becomes of the filled IO_CONTEXT; `queued` is bPostQueued.
unfoldable pub hand_over : Bool → Bool → Server → ℕ → Server × Bool
hand_over queued started s io = elim queued [
  | true ↦ (record s { port = s.port ++ packet io ∷ []; in_flight = io ∷ s.in_flight }, true)
  | false ↦
      let r = post_send started s io in
      if r.1 then (r.0, true) else (add_free_io_context r.0 io, false)
]

-- One round of the loop in _send.
unfoldable pub send_once : Bool → Bool → Server → ℕ → List ℕ → Result (Server × Bool)
send_once queued started s sock bytes = do
  let got = get_free_io_context s
  c ← or_fault (get_elem? got.0.io_store got.1) null_pointer
  buf ← or_fault (copy_at c.buf 0 bytes) out_of_bounds
  let s' =
      set_io got.0 got.1
        λ c'. record c' { buf = buf; len = length bytes; so = writing; sock_accept = sock }
  ok (hand_over queued started s' got.1)

-- The loop in _send, where `rest` is what pBuf points to; each round copies `n` bytes, nLen, and
-- counts MAX_BUFFER of them. `started` answers for the round that has so many left.
unfoldable pub send_loop :
    ℕ → Bool → (ℕ → Bool) → Server → ℕ → ℕ → List ℕ → ℕ → Result (Server × Bool)
send_loop zero queued started s sock n rest remain = err out_of_fuel
send_loop (suc fuel) queued started s sock n rest remain = elim (remain == 0) [
  | true ↦ ok (s, true)
  | false ↦ do
    bytes ← or_fault (slice rest 0 n) out_of_bounds
    (s', sent) ← send_once queued (started remain) s sock bytes
    elim sent [
      | false ↦ ok (s', false)
      | true ↦
          send_loop fuel queued started s' sock n (drop (min remain max_buffer) rest)
            (remain - min remain max_buffer)
    ]
]

-- CTcpServer::_send; there are no more rounds than bytes.
unfoldable pub send_buf : Bool → (ℕ → Bool) → Server → ℕ → List ℕ → Result (Server × Bool)
send_buf queued started s conn_id bytes = elim (find_socket_context s conn_id) [
  | none ↦ ok (s, false)
  | some context ↦ or_fault (get_elem? s.contexts context) null_pointer >>= λ c.
      send_loop (suc (length bytes)) queued started s c.sock (length bytes) bytes (length bytes)
]

-- CTcpServer::Send. Its bPostQueued is not passed on.
unfoldable pub send : (ℕ → Bool) → Server → ℕ → List ℕ → Result (Server × Bool)
send started s conn_id payload = do
  (des, n) ← prepare_send_buf (replicate 1024 0) payload 50
  send_buf false started s conn_id (take n des)

-- The bytes before the first NUL, if there is one.
unfoldable pub c_string : List ℕ → Option (List ℕ)
c_string [] = none
c_string (b ∷ bs) =
    let rest = c_string bs in
    elim (b == 0) [ true ↦ some [] | false ↦ elim rest [ none ↦ none | some t ↦ some (b ∷ t) ] ]

-- CTcpServer::SendEx. `counted` tells whether WideCharToMultiByte counts the text, and `utf8` is what
-- it writes, the NUL included.
unfoldable pub send_ex : Platform → Bool → (ℕ → Bool) → Server → ℕ → List ℕ → Result (Server × Bool)
send_ex p counted started s conn_id utf8 = elim (find_socket_context s conn_id) [
  | none ↦ ok (s, false)
  | some context ↦ elim counted [
    | false ↦ ok (s, false)
    | true ↦ do
      str ← or_fault (p.new_bytes 1024) bad_alloc
      str ← or_fault (copy_at str 0 utf8) out_of_bounds
      text ← or_fault (c_string str) out_of_bounds
      tmp ← or_fault (p.new_bytes (length text + 1)) bad_alloc
      tmp ← or_fault (copy_at tmp 0 text) out_of_bounds
      tmp ← or_fault (copy_at tmp (length text) (0 ∷ [])) out_of_bounds
      buf ← or_fault (p.new_bytes (length text + 50)) bad_alloc
      (des, n) ← prepare_send_buf buf (take (length text) tmp) 50
      send_buf false started s conn_id (take n des)
  ]
]
