-- ===== src/Tests/Tcp/Sending.antt =====
-- Send at concrete inputs.
use mathlib.Core.List.{flatten}
use windows_verifyserver.Prelude.{ℕ, ◌≡◌, refl, List, [], ◌∷◌, ◌++◌, true, arith, replicate}
use windows_verifyserver.Prelude.Results.{ok, err, out_of_bounds}
use windows_verifyserver.Tcp.Packet.{sum_bytes}
use windows_verifyserver.Tcp.Packet.Layout.{packet, bytes}
use windows_verifyserver.Tcp.Receive.{Assembly, clean, receive_all}
use windows_verifyserver.Tcp.Receive.Position.{deliveries}
use windows_verifyserver.Tcp.Connections.{Server, new_server}
use windows_verifyserver.Tcp.Worker.{accept_next, posted, si_accept, worker_step, on_posted}
use windows_verifyserver.Tcp.Worker.Safety.{accepts}
use windows_verifyserver.Tcp.Worker.Holds.{Holds}
use windows_verifyserver.Tcp.Sending.{send, send_ex}
use windows_verifyserver.Tcp.Sending.Text.{send_ex-Sends}
use windows_verifyserver.Tcp.Sending.Wire.{Sends}
use windows_verifyserver.Tcp.Sending.Sends.{IsConnected, send-Sends, send-overrun}
use windows_verifyserver.Tcp.Sending.Delivery.{send_each, writes, frames, send_each-receive_all}
use windows_verifyserver.Tcp.Sending.Reach.{created, moved, serves, Reach-Holds}
use windows_verifyserver.Tests.Tcp.{machine, machine-IsSound, hi, you}
use windows_verifyserver.Tests.Tcp.Worker.{answers, one_open, one_open-Holds}

first_IsConnected : IsConnected one_open 1 40
first_IsConnected = record { context = 0; found = refl; held = _; exists = refl; named = refl }

send-Sends_example :
    Sends one_open true ((40, bytes (packet 50 hi)) ∷ []) (send (λ r. true) one_open 1 hi)
send-Sends_example =
    send-Sends (λ r. true) one_open 1 40 hi one_open-Holds first_IsConnected (omega arith)

send-overrun_example : send (λ r. true) one_open 1 (replicate 1010 b'x') ≡ err out_of_bounds
send-overrun_example = send-overrun (λ r. true) one_open 1 (replicate 1010 b'x') (omega arith)

-- Each packet comes in two pieces.
abbrev chunks : List (List ℕ)
chunks =
    (b'S' ∷ b':' ∷ 50 ∷ [])
    ∷ (0 ∷ 0 ∷ 0 ∷ 17 ∷ 0 ∷ 0 ∷ 0 ∷ b'h' ∷ [])
    ∷ (b'i' ∷ 161 ∷ 1 ∷ 0 ∷ 0 ∷ b'E' ∷ b'S' ∷ b':' ∷ 50 ∷ 0 ∷ 0 ∷ 0 ∷ 18 ∷ [])
    ∷ (0 ∷ 0 ∷ 0 ∷ b'y' ∷ b'o' ∷ b'u' ∷ 46 ∷ 2 ∷ 0 ∷ 0 ∷ b'E' ∷ [])
    ∷ []

send_each-receive_all_example :
    (t : Server) × (send_each one_open 1 (hi ∷ you ∷ []) ≡ ok t)
    × (t.sent ≡ one_open.sent ++ writes 40 (hi ∷ you ∷ []))
    × (io : Assembly) × (receive_all machine true 7 clean chunks
        ≡ ok (io, deliveries machine 7 (frames (hi ∷ you ∷ []))))
unfolding sum_bytes flatten
send_each-receive_all_example =
    send_each-receive_all machine 2000 7 one_open 1 40 (hi ∷ you ∷ []) chunks machine-IsSound
      (omega arith) (omega arith) (λ n h. (replicate n 0xcd, refl)) one_open-Holds first_IsConnected
      (omega arith, (omega arith, tt)) (omega arith) refl

-- The server has served the first of the accepts that Start posts.
Reach-Holds_example : Holds [] (accept_next answers new_server)
unfolding worker_step on_posted
Reach-Holds_example = Reach-Holds machine true machine-IsSound (accept_next answers new_server) (
    moved new_server (accept_next answers new_server) created
      (serves answers (posted si_accept 0) (accept_next answers new_server) [] (accepts 0) refl))

send_ex-Sends_example :
    Sends one_open true
      ((40, bytes (packet 50 hi)) ∷ [])
      (send_ex machine true (λ r. true) one_open 1 (hi ++ 0 ∷ []))
send_ex-Sends_example =
    send_ex-Sends machine machine-IsSound 2000 (omega arith) (λ n h. (replicate n 0xcd, refl))
      (λ r. true) one_open 1 40 hi one_open-Holds first_IsConnected
      ((λ e. omega (arith, e)), ((λ e. omega (arith, e)), tt)) (omega arith)
