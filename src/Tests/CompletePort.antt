-- ===== src/Tests/CompletePort.antt =====
-- The completion port at concrete inputs.
use windows_verifyserver.Prelude.{
  ℕ, take, zero, suc, ◌+◌, ◌≡◌, refl, List, [], ◌∷◌, some, none, Bool, true, false, arith,
}
use windows_verifyserver.Prelude.Counts.{count, erase_first}
use windows_verifyserver.CompletePort.{
  Pool, object, nothing, exit_code, pass, run, post_exits, create_complete_port, start_threads,
  io_complete_port_post, max_wait, no_port, new_port, AllEnded, post_batch, Destroys, destroys,
  batch, over, close_port, clear_overlapped_list,
}
use windows_verifyserver.CompletePort.Threads.{
  PortEvent, posts, steps, takes, operates, deletes, task_of, take_packet, operate, delete_object,
  play,
}
use windows_verifyserver.CompletePort.Threads.Balance.{play-Balanced}
use windows_verifyserver.CompletePort.Ending.{CanEnd, post_exits-CanEnd}
use windows_verifyserver.CompletePort.Deadlock.{post_batch-deadlock}

abbrev never : ℕ → Bool
never ol = false

-- Two threads, and two objects that wait.
abbrev busy : Pool
busy = record no_port {
  opened = true;
  threads = 0 ∷ 1 ∷ [];
  alive = 0 ∷ 1 ∷ [];
  queue = object 0 7 ∷ object 0 8 ∷ [];
  started = 2;
}

made : (create_complete_port true 4 (λ n. true) no_port 2).0 ≡ record busy { queue = [] }
unfolding create_complete_port start_threads
made = refl

posted : (io_complete_port_post true busy 0 9).1 ≡ true
unfolding io_complete_port_post
posted = refl

abbrev two_passes : List (ℕ × Bool)
two_passes = (1, true) ∷ (1, true) ∷ []

abbrev served_two : Pool
served_two = record busy { queue = []; operated = 7 ∷ 8 ∷ []; deleted = 7 ∷ 8 ∷ [] }

-- Both objects are posted to a new port with its twenty threads; two threads take them, and the second
-- is through with its object before the first works on its own.
abbrev overtaking : List PortEvent
overtaking =
    posts 0 7
    ∷ posts 0 8
    ∷ steps 1 takes
    ∷ steps 0 takes
    ∷ steps 0 operates
    ∷ steps 0 deletes
    ∷ steps 1 operates
    ∷ []

abbrev overtaken : Pool
overtaken = record (new_port true 4 (λ n. true)) {
  worked = (record { thread = 1; bytes = 0; ol = 7 }) ∷ [];
  operated = 8 ∷ 7 ∷ [];
  deleted = 8 ∷ [];
}

play-Balanced_example : (1 ≡ 0 + 0 + 1) × (1 ≡ 1 + 0)
unfolding play take_packet operate delete_object task_of io_complete_port_post new_port
    create_complete_port start_threads count
play-Balanced_example = play-Balanced never 4 (λ n. true) overtaking overtaken 7 refl

abbrev leaving : Pool
leaving = record served_two { queue = nothing exit_code ∷ nothing exit_code ∷ [] }

post_exits-CanEnd_example : CanEnd never leaving × (leaving.queue ≡ [] → leaving.alive ≡ [])
unfolding run pass count post_exits
post_exits-CanEnd_example =
    post_exits-CanEnd never busy leaving 2 two_passes refl (omega arith) refl

-- The numbers from `a` on.
abbrev from : ℕ → ℕ → List ℕ
from a zero = []
from a (suc n) = a ∷ from (suc a) n

abbrev crowd : Pool
crowd = record no_port {
  opened = true;
  threads = 0 ∷ from 1 64;
  alive = 0 ∷ from 1 64;
  started = 65;
}

post_batch-deadlock_example :
    (passes : List (ℕ × Bool)) × (t : Pool) × (run never (post_batch crowd crowd.threads) passes
      ≡ some t)
    × (¬ AllEnded t (take max_wait crowd.threads))
    × ((x : ℕ) → pass never t (x, true) ≡ none)
unfolding count
post_batch-deadlock_example =
    post_batch-deadlock never crowd 0 (from 1 64) refl refl refl refl refl (omega arith)

abbrev one : Pool
one = record no_port { opened = true; threads = 0 ∷ []; alive = 0 ∷ []; started = 1 }

abbrev gone : Pool
gone = record one { opened = false; alive = []; closed = 0 ∷ [] }

first_call : Destroys never one (gone, true)
unfolding run pass post_batch post_exits count erase_first close_port clear_overlapped_list
first_call =
    destroys (record gone { opened = true })
      (batch one (record one { alive = [] }) (record gone { opened = true }) 0 [] ((0, true) ∷ [])
        refl (refl, tt) (over _))

second_call : Destroys never gone (record gone { closed = 0 ∷ 0 ∷ [] }, false)
unfolding run post_batch post_exits count close_port clear_overlapped_list
second_call =
    destroys (record gone { closed = 0 ∷ 0 ∷ [] })
      (batch gone gone (record gone { closed = 0 ∷ 0 ∷ [] }) 0 [] [] refl (refl, tt) (over _))

abbrev gone_twice : Pool
gone_twice = record gone { closed = 0 ∷ 0 ∷ [] }
