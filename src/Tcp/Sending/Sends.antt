-- ===== src/Tcp/Sending/Sends.antt =====
-- What Send and _send give to Windows, and what they overrun.
use windows_verifyserver.Prelude.{
  ℕ, suc, ◌+◌, ◌-◌, ◌≤◌, ◌<◌, ◌≡◌, refl, sym, List, [], ◌∷◌, ◌++◌, some, Bool, true, false, ne→==,
  eq→==, length, get_elem?, drop, replicate, length-replicate, length-append, min, arith,
}
use windows_verifyserver.Prelude.Memory.{slice_whole, take-append}
use windows_verifyserver.Prelude.Results.{ok, err, out_of_bounds}
use windows_verifyserver.Tcp.Packet.{prepare_send_buf}
use windows_verifyserver.Tcp.Packet.Layout.{
  packet, bytes, prepare_send_buf-packet, prepare_send_buf-overrun,
}
use windows_verifyserver.Tcp.Connections.{Server, SocketContext, max_buffer, find_socket_context}
use windows_verifyserver.Tcp.Worker.Holds.{Holds}
use windows_verifyserver.Tcp.Sending.{send_once, send_loop, send_buf, send}
use windows_verifyserver.Tcp.Sending.Wire.{Sends, send_once-Sends, send_once-overrun}

-- The number stands for a connection, and its socket is `sock`.
pub record IsConnected (s : Server) (conn_id sock : ℕ) : Type 0 where
  pub context : ℕ
  pub found : find_socket_context s conn_id ≡ some context
  pub held : SocketContext
  pub exists : get_elem? s.contexts context ≡ some held
  pub named : held.sock ≡ sock

-- The loop ends where nothing remains.
send_loop-done :
    (fuel : ℕ) (started : ℕ → Bool) (s : Server) (sock n : ℕ) (rest : List ℕ) (remain : ℕ)
    → remain ≡ 0
    → send_loop (suc fuel) false started s sock n rest remain ≡ ok (s, true)
unfolding send_loop
send_loop-done fuel started s sock n rest remain e = rw (send_loop, eq→== remain 0 e) refl

-- Its first round copies all bytes, and they are too many for szBuf.
send_loop-overrun :
    (fuel : ℕ) (started : ℕ → Bool) (s : Server) (sock : ℕ) (out : List ℕ)
    → Holds [] s
    → max_buffer < length out
    → send_loop (suc fuel) false started s sock (length out) out (length out) ≡ err out_of_bounds
unfolding send_loop
send_loop-overrun fuel started s sock out v h =
    rw
      (
        send_loop,
        ne→== (length out) 0 (omega arith),
        slice_whole out (length out) refl,
        send_once-overrun (started (length out)) s sock out v h,
      )
      refl

-- The loop ends after the round that sends everything.
send_loop-once :
    (started : ℕ → Bool) (answer : Bool) (s : Server) (sock b : ℕ) (bs : List ℕ)
    → started (suc (length bs)) ≡ answer
    → suc (length bs) ≤ max_buffer
    → Sends s answer ((sock, b ∷ bs) ∷ []) (send_once false answer s sock (b ∷ bs))
    → Sends s answer ((sock, b ∷ bs) ∷ []) (
        send_loop
          (suc (suc (length bs)))
          false
          started
          s
          sock
          (suc (length bs))
          (b ∷ bs)
          (suc (length bs)))
unfolding send_loop
send_loop-once started true s sock b bs e h z = record {
  after = z.after;
  result =
      rw
        (
          send_loop,
          ne→== (suc (length bs)) 0 (omega arith),
          slice_whole (b ∷ bs) (suc (length bs)) refl,
          e,
          z.result,
        )
        (send_loop-done (length bs) started z.after sock (suc (length bs))
          (drop (min (suc (length bs)) max_buffer) (b ∷ bs))
          (suc (length bs) - min (suc (length bs)) max_buffer) (omega arith));
  on_wire = z.on_wire;
  holds = z.holds;
  clients = z.clients;
  contexts = z.contexts;
}
send_loop-once started false s sock b bs e h z = record {
  after = z.after;
  result =
      rw
        (
          send_loop,
          ne→== (suc (length bs)) 0 (omega arith),
          slice_whole (b ∷ bs) (suc (length bs)) refl,
          e,
          z.result,
        )
        refl;
  on_wire = z.on_wire;
  holds = z.holds;
  clients = z.clients;
  contexts = z.contexts;
}

-- What there is, up to MAX_BUFFER bytes, goes out in one write on the connection's socket.
pub send_buf-Sends :
    (started : ℕ → Bool) (s : Server) (conn_id sock : ℕ) (out : List ℕ)
    → Holds [] s
    → IsConnected s conn_id sock
    → 0 < length out
    → length out ≤ max_buffer
    → Sends s (started (length out)) ((sock, out) ∷ []) (send_buf false started s conn_id out)
unfolding send_buf
send_buf-Sends started s conn_id sock [] v c l h = absurd (omega arith)
send_buf-Sends started s conn_id sock (b ∷ bs) v c l h =
    rw (send_buf, c.found, c.exists)
      (rw c.named (
        send_loop-once started (started (suc (length bs))) s sock b bs refl h
          (send_once-Sends (started (suc (length bs))) s sock (b ∷ bs) v h)))

-- Where the contexts are in order and the number stands for a connection, _send of more than
-- MAX_BUFFER bytes writes behind the end of the IO_CONTEXT's buffer.
send_buf-overrun :
    (started : ℕ → Bool) (s : Server) (conn_id sock : ℕ) (out : List ℕ)
    → Holds [] s
    → IsConnected s conn_id sock
    → max_buffer < length out
    → send_buf false started s conn_id out ≡ err out_of_bounds
unfolding send_buf
send_buf-overrun started s conn_id sock out v c h =
    rw (send_buf, c.found, c.exists) (send_loop-overrun (length out) started s c.held.sock out v h)

pub length-packet : (payload : List ℕ) → length (bytes (packet 50 payload)) ≡ length payload + 15
length-packet payload = omega (arith, length-append payload (packet 50 payload).trailer)

prepared :
    (payload : List ℕ)
    → length payload + 15 ≤ 1024
    → prepare_send_buf (replicate 1024 0) payload 50
      ≡ ok (
        bytes (packet 50 payload) ++ drop (length payload + 15) (replicate 1024 0),
        length payload + 15,
      )
prepared payload h =
    prepare_send_buf-packet (replicate 1024 0) payload 50
      (omega (arith, length-replicate {A = ℕ} 1024 0))

-- Send gives _send what PrepareSendBuf wrote.
send-send_buf :
    (started : ℕ → Bool) (s : Server) (conn_id : ℕ) (payload out rest : List ℕ) (n : ℕ)
    → prepare_send_buf (replicate 1024 0) payload 50 ≡ ok (out ++ rest, n)
    → n ≡ length out
    → send started s conn_id payload ≡ send_buf false started s conn_id out
unfolding send
send-send_buf started s conn_id payload out rest n e l =
    rw (send, e) (rw (take-append n out rest l) refl)

send-Sends_of :
    (started : ℕ → Bool) (s : Server) (conn_id sock : ℕ) (payload out rest : List ℕ) (n : ℕ)
    → prepare_send_buf (replicate 1024 0) payload 50 ≡ ok (out ++ rest, n)
    → n ≡ length out
    → Holds [] s
    → IsConnected s conn_id sock
    → 0 < n
    → n ≤ max_buffer
    → Sends s (started n) ((sock, out) ∷ []) (send started s conn_id payload)
send-Sends_of started s conn_id sock payload out rest n e l v c g h =
    rw (l, send-send_buf started s conn_id payload out rest n e l)
      (send_buf-Sends started s conn_id sock out v c (omega arith) (omega arith))

-- Where the contexts are in order and the number stands for a connection, Send of at most 1009 bytes
-- gives Windows one write on its socket, of the packet of the payload and nothing else. It says
-- whether Windows took it, and leaves the contexts in order and the connections as they were.
pub send-Sends :
    (started : ℕ → Bool) (s : Server) (conn_id sock : ℕ) (payload : List ℕ)
    → Holds [] s
    → IsConnected s conn_id sock
    → length payload + 15 ≤ max_buffer
    → Sends s
        (started (length payload + 15))
        ((sock, bytes (packet 50 payload)) ∷ [])
        (send started s conn_id payload)
send-Sends started s conn_id sock payload v c h =
    send-Sends_of started s conn_id sock payload (bytes (packet 50 payload))
      (drop (length payload + 15) (replicate 1024 0)) (length payload + 15) (prepared payload h)
      (sym (length-packet payload)) v c (omega arith) h

-- A payload of more than 1009 bytes is written behind the end of pSendBuf, before Send has looked
-- for the connection.
pub send-overrun :
    (started : ℕ → Bool) (s : Server) (conn_id : ℕ) (payload : List ℕ)
    → max_buffer < length payload + 15
    → send started s conn_id payload ≡ err out_of_bounds
unfolding send
send-overrun started s conn_id payload h =
    rw
      (
        send,
        prepare_send_buf-overrun (replicate 1024 0) payload 50
            (omega (arith, length-replicate {A = ℕ} 1024 0)),
      )
      refl
