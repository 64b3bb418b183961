-- ===== src/Tests/Tcp/Lifecycle.antt =====
-- Start and Stop at concrete inputs: a machine with one processor, and so with four threads.
use mathlib.Core.Option.{some-injective}
use windows_verifyserver.Prelude.{
  ℕ, ◌+◌, ◌≡◌, refl, [], ◌∷◌, none, some, true, false, ltb, if◌then◌else◌, arith,
}
use windows_verifyserver.Prelude.Counts.{count}
use windows_verifyserver.Prelude.Results.{use_after_free}
use windows_verifyserver.Tcp.Connections.{new_server}
use windows_verifyserver.Tcp.Lifecycle.{
  Life, Startup, new_life, start, start_port, start_threads, post_accepts, stop, returns, waits,
  faults, close_all, all_end, keys, insert_key,
}
use windows_verifyserver.Tcp.Lifecycle.Starts.{Outcome, start-Outcome}
use windows_verifyserver.Tcp.Lifecycle.Stops.{IsStopped, Closed, start-stop}
use windows_verifyserver.Tcp.Lifecycle.Stuck.{stop-clients, start-again-waits}

abbrev healthy : Startup
healthy = record {
  ready = true;
  sock = some 4;
  bound = true;
  listens = true;
  port = some 8;
  processors = 1;
  threads = λ i. some (100 + i);
  attached = true;
}

-- The third thread cannot be made.
abbrev exhausted : Startup
exhausted = record healthy {
  sock = some 20;
  port = some 24;
  threads = λ i. if ltb i 2 then some (30 + i) else none;
}

abbrev running : Life
running = record new_life {
  server = record new_server { clients = (5, 0) ∷ (2, 1) ∷ [] };
  running = true;
  sock_listen = some 4;
  completion_port = some 8;
  workers = 100 ∷ [];
  has_receiver = true;
  sockets = 4 ∷ [];
  handles = 100 ∷ 8 ∷ [];
  waiting = (100, 8) ∷ [];
}

abbrev half_started : Life
half_started = record new_life {
  sock_listen = some 20;
  completion_port = some 24;
  workers = 30 ∷ 31 ∷ [];
  has_receiver = true;
  sockets = 20 ∷ [];
  handles = 31 ∷ 30 ∷ 24 ∷ [];
  waiting = (31, 24) ∷ (30, 24) ∷ [];
}

new_life-IsStopped : IsStopped new_life
new_life-IsStopped = record { running = refl; workers = refl; waiting = refl }

start-Outcome_example : Outcome exhausted true new_life (start exhausted true new_life)
start-Outcome_example = start-Outcome exhausted true new_life refl

half : start exhausted true new_life ≡ (half_started, false)
unfolding start start_port start_threads
half = refl

start-stop_example :
    (u : Life) × (stop (λ s. s) (start healthy true new_life).0 ≡ returns u) × Closed new_life u
unfolding start start_port start_threads post_accepts close_all keys
start-stop_example =
    start-stop healthy true (λ s. s) new_life (start healthy true new_life).0 new_life-IsStopped
      refl refl

stop-clients_example : stop (λ s. s) running ≡ faults use_after_free
unfolding close_all keys insert_key all_end
stop-clients_example = stop-clients (λ s. s) running 5 0 ((2, 1) ∷ []) refl refl refl

no_reuse : (i h : ℕ) → healthy.threads i ≡ some h → count h half_started.handles ≡ 0
unfolding count
no_reuse i h e = ground (arith, some-injective (100 + i) h e)

start-again-waits_example : stop (λ s. s) (start healthy true half_started).0 ≡ waits
unfolding start start_port start_threads post_accepts
start-again-waits_example =
    start-again-waits exhausted healthy true true (λ s. s) new_life half_started
      (start healthy true half_started).0 new_life-IsStopped half (λ e. absurd cc) refl
      (λ e. omega (arith, some-injective 24 8 e)) no_reuse
