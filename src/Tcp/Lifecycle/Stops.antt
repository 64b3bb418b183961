-- ===== src/Tcp/Lifecycle/Stops.antt =====
-- What Stop of CTcpServer gives back, and where it does not come to its end.
use windows_verifyserver.Prelude.{
  ℕ, ◌+◌, ◌≤◌, ◌<◌, ◌≡◌, refl, sym, ap, subst, ◌∙◌, List, [], ◌∷◌, ◌++◌, none, some, Bool, true,
  false, ◌==◌, ltb, eq→==, Bool-cases, inl, inr, arith,
}
use windows_verifyserver.Prelude.Counts.{count, same, same_self, erase_first, count-erase_first}
use windows_verifyserver.Tcp.Connections.{Server, find}
use windows_verifyserver.Tcp.Lifecycle.{
  Life, Startup, worker_count, post_accepts, start, ends, all_end, close_handles, others,
  delete_clients, release, reaped, returns, end_threads, close_all, stop,
}
use windows_verifyserver.Tcp.Lifecycle.Starts.{
  opened_then_closed, made, push_all, wait_at, with_threads, with_port, Outcome, refuses, leaves,
  starts, start-Outcome,
}

-- All threads wait at one port.
abbrev AllAt : ℕ → List (ℕ × ℕ) → Type 0
AllAt port [] = Unit
AllAt port ((h, q) ∷ waiting) = (q ≡ port) × AllAt port waiting

wait_at-AllAt :
    (port : ℕ) (hs : List ℕ) (waiting : List (ℕ × ℕ))
    → AllAt port waiting
    → AllAt port (wait_at port hs waiting)
wait_at-AllAt port [] waiting a = a
wait_at-AllAt port (h ∷ hs) waiting a = wait_at-AllAt port hs ((h, port) ∷ waiting) (refl, a)

ends-AllAt :
    (port h : ℕ) (waiting : List (ℕ × ℕ))
    → AllAt port waiting
    → ends (some port) (find waiting h) ≡ true
ends-AllAt port h [] a = refl
ends-AllAt port h ((k, q) ∷ waiting) a = elim (Bool-cases (k == h)) [
  | inl y ↦ rw y (eq→== q port a.0)
  | inr n ↦ rw n (ends-AllAt port h waiting a.1)
]

all_end-AllAt :
    (port : ℕ) (waiting : List (ℕ × ℕ)) (workers : List ℕ)
    → AllAt port waiting
    → all_end (some port) waiting workers ≡ true
unfolding all_end
all_end-AllAt port waiting [] a = refl
all_end-AllAt port waiting (h ∷ workers) a =
    rw (ends-AllAt port h waiting a) (all_end-AllAt port waiting workers a)

-- Each of the threads is a worker.
abbrev Among : List ℕ → List (ℕ × ℕ) → Type 0
Among workers [] = Unit
Among workers ((h, q) ∷ waiting) = (0 < count h workers) × Among workers waiting

wait_at-Among :
    (port : ℕ) (workers hs : List ℕ) (waiting : List (ℕ × ℕ))
    → ((i : ℕ) → count i hs ≤ count i workers)
    → Among workers waiting
    → Among workers (wait_at port hs waiting)
unfolding count
wait_at-Among port workers [] waiting le a = a
wait_at-Among port workers (h ∷ hs) waiting le a =
    wait_at-Among port workers hs ((h, port) ∷ waiting) (λ i. omega (arith, le i))
      (omega (arith, le h, same_self h), a)

others-Among :
    (workers : List ℕ) (waiting : List (ℕ × ℕ))
    → Among workers waiting
    → others workers waiting ≡ []
unfolding others
others-Among workers [] a = refl
others-Among workers ((h, q) ∷ waiting) a =
    let y : ltb 0 (count h workers) ≡ true = ground (arith, a.0) in
    rw (others, y) (others-Among workers waiting a.1)

pub count-push_all :
    (i : ℕ) (hs handles : List ℕ) → count i (push_all hs handles) ≡ count i hs + count i handles
unfolding count
count-push_all i [] handles = omega arith
count-push_all i (h ∷ hs) handles = omega (arith, count-push_all i hs (h ∷ handles))

count-close_handles :
    (i : ℕ) (hs handles : List ℕ)
    → ((j : ℕ) → count j hs ≤ count j handles)
    → count i (close_handles hs handles) + count i hs ≡ count i handles
unfolding count close_handles
count-close_handles i [] handles le = omega arith
count-close_handles i (h ∷ hs) handles le =
    let p : 0 < count h handles = omega (arith, le h, same_self h) in
    omega (
      arith,
      count-close_handles i hs (erase_first h handles)
          (λ j. omega (arith, le j, count-erase_first j h handles p)),
      count-erase_first i h handles p,
    )

-- Nothing of a server is left: no thread, no port, no socket and no client.
pub record IsStopped (l : Life) : Type 0 where
  pub running : l.running ≡ false
  pub workers : l.workers ≡ []
  pub waiting : l.waiting ≡ []

-- What is open is what was open at the start, and the server is as the constructor leaves it.
pub record Closed (l u : Life) : Type 0 where
  pub stopped : IsStopped u
  pub sockets : (i : ℕ) → count i u.sockets ≡ count i l.sockets
  pub handles : (i : ℕ) → count i u.handles ≡ count i l.handles
  pub port : u.completion_port ≡ none
  pub listening : u.sock_listen ≡ none
  pub clients : u.server.clients ≡ []
  pub free_sockets : u.server.free_sockets ≡ []
  pub free_ios : u.server.free_ios ≡ []
  pub last_conn_id : u.server.last_conn_id ≡ 0

end_threads-returns :
    (l : Life)
    → all_end l.completion_port l.waiting l.workers ≡ true
    → l.server.clients ≡ []
    → end_threads l ≡ returns (release (reaped l) l.server)
unfolding end_threads delete_clients
end_threads-returns l e k = simp (end_threads, e, k) refl

-- The server runs, with these threads.
abbrev up : Startup → Bool → ℕ → ℕ → List ℕ → Life → Life
up w receiver sock port hs l =
    post_accepts w.attached (with_threads port hs (with_port receiver sock port l))

stopped-Closed :
    (w : Startup) (receiver : Bool) (sock port : ℕ) (hs : List ℕ) (s : Server) (l : Life)
    → IsStopped l
    → Closed l
        (release (reaped (record (close_all (up w receiver sock port hs l)) { server = s })) s)
unfolding close_all post_accepts count
stopped-Closed w receiver sock port hs s l v = record {
  stopped = record {
    running = refl;
    workers = refl;
    waiting = all_waited (l.workers) l.waiting v.workers v.waiting;
  };
  sockets = λ i. ap (count i) (opened_then_closed sock l.sockets);
  handles = λ i. rw v.workers (all_closed i);
  port = refl;
  listening = refl;
  clients = refl;
  free_sockets = refl;
  free_ios = refl;
  last_conn_id = refl;
}
  where
    all_waited :
        (ws : List ℕ) (q : List (ℕ × ℕ))
        → ws ≡ []
        → q ≡ []
        → others (ws ++ hs) (wait_at port hs q) ≡ []
    all_waited ws q e f =
        rw (e, f)
          (others-Among hs (wait_at port hs []) (wait_at-Among port hs hs [] (λ i. omega arith) tt))

    all_closed :
        (i : ℕ)
        → count i (erase_first port (close_handles hs (push_all hs (port ∷ l.handles))))
          ≡ count i l.handles
    all_closed i =
        let all = push_all hs (port ∷ l.handles) in
        let left = close_handles hs all in
        let of_all : (j : ℕ) → count j all ≡ count j hs + (same j port + count j l.handles) =
          λ j. count-push_all j hs (port ∷ l.handles) in
        let closed : (j : ℕ) → count j left + count j hs ≡ count j all =
          λ j. count-close_handles j hs all (λ k. omega (arith, of_all k)) in
        omega (
          arith,
          count-erase_first i port left (omega (arith, closed port, of_all port, same_self port)),
          closed i,
          of_all i,
        )

stop-up :
    (w : Startup) (receiver : Bool) (during : Server → Server) (sock port : ℕ) (hs : List ℕ)
    (l : Life)
    → IsStopped l
    → let t = up w receiver sock port hs l in
      (during (close_all t).server).clients ≡ []
      → (u : Life) × (stop during t ≡ returns u) × Closed l u
unfolding stop close_all post_accepts
stop-up w receiver during sock port hs l v k =
    let t = up w receiver sock port hs l in
    let s = during (close_all t).server in
    (
      release (reaped (record (close_all t) { server = s })) s,
      end_threads-returns (record (close_all t) { server = s })
          (all_end-AllAt port (wait_at port hs l.waiting) (l.workers ++ hs)
            (wait_at-AllAt port hs l.waiting (rw v.waiting tt)))
          k,
      stopped-Closed w receiver sock port hs s l v,
    )

-- Where Start has succeeded on a server of which nothing is left, and no client is left when the
-- worker threads have had their time, Stop returns, each socket and each handle that Start opened is
-- closed once, no thread is left, and the server is as it was made, ready for the next Start.
pub start-stop :
    (w : Startup) (receiver : Bool) (during : Server → Server) (l t : Life)
    → IsStopped l
    → start w receiver l ≡ (t, true)
    → (during (close_all t).server).clients ≡ []
    → (u : Life) × (stop during t ≡ returns u) × Closed l u
start-stop w receiver during l t v e k = go (start-Outcome w receiver l v.running)
  where
    go :
        Outcome w receiver l (start w receiver l)
        → (u : Life) × (stop during t ≡ returns u) × Closed l u
    go (refuses f x) = let g : true ≡ false = sym (ap (λ r. r.1) e) ∙ f in absurd cc
    go (leaves sock port n a b c d x q) =
        let g : true ≡ false = sym (ap (λ r. r.1) e) ∙ ap (λ r. r.1) q in absurd cc
    go (starts sock port a b c q) =
        let hs = made w.threads 0 (worker_count w.processors) in
        let m : t ≡ up w receiver sock port hs l = sym (ap (λ r. r.0) e) ∙ ap (λ r. r.0) q in
        subst (λ x. (u : Life) × (stop during x ≡ returns u) × Closed l u) (sym m)
          (stop-up w receiver during sock port hs l v
            (subst (λ x. (during (close_all x).server).clients ≡ []) m k))
