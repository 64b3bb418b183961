-- ===== src/Tests/Receiver.antt =====
-- The socket receiver at concrete inputs: a machine with one processor.
use windows_verifyserver.Prelude.{ℕ, ◌≡◌, refl, List, [], ◌∷◌, length, true}
use windows_verifyserver.Prelude.Results.{ok, err, out_of_bounds}
use windows_verifyserver.CompletePort.{
  Pool, object, new_port, create_complete_port, start_threads, io_complete_port_post,
}
use windows_verifyserver.Receiver.{
  Receiver, new_receiver, recevie, recevie_all, text_of, post_object, end_call, served_at,
}
use windows_verifyserver.Receiver.Stale.{worked}

abbrev started : Receiver
started = new_receiver true true 1 (λ n. true) (λ n. true)

-- Twenty threads by the constructor and four by the second call.
threads : length (started.ports 0).alive ≡ 24
unfolding new_receiver new_port create_complete_port start_threads
threads = refl

-- "a", "b" and "c", with what lies behind them.
abbrev payloads : List (ℕ × List ℕ)
payloads =
    (7, b'a' ∷ 0 ∷ 0 ∷ 0 ∷ []) ∷ (8, b'b' ∷ 0 ∷ 0 ∷ 0 ∷ 5 ∷ []) ∷ (7, b'c' ∷ 0 ∷ 0 ∷ 0 ∷ []) ∷ []

in_turn :
    (t : Receiver) × (recevie_all started payloads ≡ ok t) × ((t.ports 1).queue ≡ object 0 1 ∷ [])
unfolding recevie_all recevie text_of new_receiver new_port create_complete_port start_threads
    io_complete_port_post
in_turn = (_, refl, refl)

-- One byte 0 ends no text.
one_zero : text_of (b'a' ∷ 0 ∷ 0 ∷ []) ≡ err out_of_bounds
unfolding text_of
one_zero = refl

-- One payload has come, a thread of the first port has taken it, and the call has returned before the
-- thread works on the object.
abbrev come : Receiver
come = post_object true started 7 (b'a' ∷ [])

abbrev taken : Pool
taken = record (come.ports 0) { queue = []; held = (record { thread = 3; bytes = 0; ol = 0 }) ∷ [] }

abbrev left : Receiver
left = end_call (served_at come 0 taken) 0

abbrev operated : Pool
operated = record taken {
  held = [];
  worked = (record { thread = 3; bytes = 0; ol = 0 }) ∷ [];
  operated = 0 ∷ [];
}
