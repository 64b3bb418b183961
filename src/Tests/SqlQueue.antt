-- ===== src/Tests/SqlQueue.antt =====
-- The queue of statements at a concrete input.
use windows_verifyserver.Prelude.{ℕ, ◌≡◌, refl, [], ◌∷◌, some, true, false}
use windows_verifyserver.Prelude.Results.{ok}
use windows_verifyserver.SqlQueue.Open.{IsOpen, Reach-IsOpen, created, opens, closes}
use windows_verifyserver.SqlQueue.{
  new_stack, open_stack, close_thread, Manager, Node, exec_sql_in_stack, serve_all, worker_pass,
  stopped, close_stack,
}
use windows_verifyserver.SqlQueue.Newest.{serve_all-newest, close_stack-newest}

abbrev idle : Manager
idle = record {
  attached = true;
  running = true;
  signalled = false;
  nodes = [];
  queue = [];
  executed = [];
  deleted = [];
}

abbrev statement : ℕ → Node
statement n = record { sql = n ∷ []; callback = 0; data_ptr = 0 }

abbrev three_queued : Manager
three_queued =
    exec_sql_in_stack (exec_sql_in_stack (exec_sql_in_stack idle (statement 7)) (statement 8))
      (statement 9)

closed : worker_pass (close_stack three_queued) ≡ stopped
unfolding worker_pass
closed = refl

serve_all-newest_example :
    serve_all 3 three_queued ≡ ok (record three_queued { queue = []; executed = 2 ∷ 2 ∷ 2 ∷ [] })
serve_all-newest_example = serve_all-newest three_queued (0 ∷ 1 ∷ []) 2 refl refl

close_stack-newest_example : (close_stack three_queued).deleted ≡ 2 ∷ 2 ∷ 2 ∷ []
close_stack-newest_example = close_stack-newest three_queued (0 ∷ 1 ∷ []) 2 refl

-- Opened, and closed again.
Reach-IsOpen_example : IsOpen (close_thread (open_stack (some 5) new_stack))
Reach-IsOpen_example =
    Reach-IsOpen (close_thread (open_stack (some 5) new_stack))
      (closes (open_stack (some 5) new_stack) (opens new_stack (some 5) created))
