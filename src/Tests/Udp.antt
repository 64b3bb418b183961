-- ===== src/Tests/Udp.antt =====
-- The UDP socket at concrete inputs.
use windows_verifyserver.Prelude.{◌≡◌, refl, [], ◌∷◌, ◌++◌, true, false, arith}
use windows_verifyserver.Udp.{
  UdpSocket, new_socket, Answers, init_broadcast_socket, start, start_recive, stop, rev_pass, Reach,
  created, moved, starts, passes,
}
use windows_verifyserver.Udp.Life.{IsShort, Reach-IsShort}
use windows_verifyserver.Udp.Failures.{start-failed, stop-twice}

abbrev good : Answers
good = record { made = 60; broadcast = true; timeout = true; begins = true }

abbrev no_option : Answers
no_option = record { made = 60; broadcast = false; timeout = true; begins = true }

-- It has been started, and has received a datagram of two bytes.
abbrev received : UdpSocket
received = rev_pass (start good (new_socket true) []).0 (1 ∷ 2 ∷ [])

received-Reach : Reach true received
unfolding start start_recive init_broadcast_socket
received-Reach =
    moved (start good (new_socket true) []).0 received
      (moved (new_socket true) (start good (new_socket true) []).0 created (starts good []))
      (passes (1 ∷ 2 ∷ []) refl)

gone_quiet : received.running ≡ false
unfolding start start_recive init_broadcast_socket rev_pass
gone_quiet = refl

Reach-IsShort_example : IsShort received
Reach-IsShort_example = Reach-IsShort true received received-Reach

start-failed_example :
    ((start no_option (new_socket true) []).1 ≡ false)
    × (init_broadcast_socket good (start no_option (new_socket true) []).0
        ≡ ((start no_option (new_socket true) []).0, true))
unfolding init_broadcast_socket
start-failed_example =
    start-failed no_option good (new_socket true) [] refl (λ e. omega (arith, e)) refl

stop-twice_example :
    (stop (stop received []) []).closed
    ≡ received.closed ++ (received.sock_server ∷ received.sock_server ∷ [])
stop-twice_example = stop-twice true received [] [] received-Reach
