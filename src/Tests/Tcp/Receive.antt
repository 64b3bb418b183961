-- ===== src/Tests/Tcp/Receive.antt =====
-- The reassembly of packets at concrete inputs.
use windows_verifyserver.Prelude.{
  ℕ, ◌≡◌, refl, true, List, [], ◌∷◌, ◌++◌, replicate, arith, inr, ◌⊎◌,
}
use mathlib.Core.List.{flatten}
use windows_verifyserver.Prelude.Results.{ok, err, bad_alloc}
use windows_verifyserver.Prelude.Memory.{copy_at, slice}
use windows_verifyserver.Tcp.Packet.{get_packet_len, sum_bytes}
use windows_verifyserver.Tcp.Packet.Layout.{Frame, packet}
use windows_verifyserver.Tcp.Receive.{
  Assembly, clean, receive, receive_all, save_data, save_step, save_rest, next_packet, complete,
  extend, join_head, keep_head, begin_packet, finish_packet, collect, rounds,
}
use windows_verifyserver.Tcp.Receive.States.{Waiting, waiting}
use windows_verifyserver.Tcp.Receive.Safety.{IsSafe, save_data-IsSafe}
use windows_verifyserver.Tcp.Receive.Position.{deliveries}
use windows_verifyserver.Tcp.Receive.Session.{receive_all-stream}
use windows_verifyserver.Tcp.Receive.Negative.{receive_all-negative}
use windows_verifyserver.Tests.Tcp.{machine, machine-IsSound, hi, you}

abbrev two : List Frame
two = packet 50 hi ∷ packet 50 you ∷ []

-- The first header in two pieces, the first packet with the start of the second, and the rest.
abbrev pieces : List (List ℕ)
pieces =
    (b'S' ∷ b':' ∷ 50 ∷ [])
    ∷ (0 ∷ 0 ∷ 0 ∷ 17 ∷ 0 ∷ 0 ∷ 0 ∷ b'h' ∷ [])
    ∷ (b'i' ∷ 161 ∷ 1 ∷ 0 ∷ 0 ∷ b'E' ∷ b'S' ∷ b':' ∷ 50 ∷ 0 ∷ 0 ∷ 0 ∷ 18 ∷ [])
    ∷ (0 ∷ 0 ∷ 0 ∷ b'y' ∷ b'o' ∷ b'u' ∷ 46 ∷ 2 ∷ 0 ∷ 0 ∷ b'E' ∷ [])
    ∷ []

clean-Waiting : Waiting clean []
clean-Waiting = record {
  idle = refl;
  small = omega arith;
  stored = inr refl;
  head_len = refl;
  short = omega arith;
}

runs :
    receive_all machine true 7 clean pieces
    ≡ ok (record clean { conn_id = 7 }, deliveries machine 7 two)
unfolding receive_all receive save_data save_step save_rest next_packet complete extend join_head
    keep_head begin_packet finish_packet collect copy_at slice get_packet_len
runs = refl

receive_all-stream_example :
    (io : Assembly) × (receive_all machine true 7 clean pieces ≡ ok (io, deliveries machine 7 two))
    × Waiting io []
unfolding sum_bytes flatten
receive_all-stream_example =
    receive_all-stream machine machine-IsSound 100 (omega arith) (omega arith)
      (λ n h. (replicate n 0xcd, refl)) 7 two pieces (omega arith) (omega arith) refl

-- Bytes that are no packet, and then a header with a length that is too large.
save_data-IsSafe_example :
    IsSafe (save_data machine true (rounds clean (hi ++ you)) clean (hi ++ you))
save_data-IsSafe_example =
    save_data-IsSafe machine machine-IsSound true clean (hi ++ you) (waiting [] clean-Waiting)
      (omega arith)

abbrev huge : List ℕ
huge = b'S' ∷ b':' ∷ 50 ∷ 0 ∷ 0 ∷ 0 ∷ 0 ∷ 0 ∷ 0 ∷ 0x80 ∷ b'x' ∷ []

receive_all-negative_example :
    (receive_all machine true 7 clean (huge ∷ pieces) ≡ err bad_alloc)
    ⊎ ((io : Assembly) × (receive_all machine true 7 clean (huge ∷ pieces) ≡ ok (io, [])))
unfolding get_packet_len
receive_all-negative_example =
    receive_all-negative machine true machine-IsSound 7 clean huge pieces clean-Waiting
      (omega arith) (omega arith) (omega arith)
