-- ===== src/Tcp/Lifecycle/Starts.antt =====
-- What Start of CTcpServer leaves behind, on each of its ways out.
use windows_verifyserver.Prelude.{
  ℕ, zero, suc, ◌+◌, ◌<◌, ◌≡◌, refl, sym, ap, subst, ◌∙◌, List, [], ◌∷◌, ◌++◌, append_assoc,
  append-nil, length, Option, none, some, Bool, true, false, eq→==, ◌&&◌, ◌==◌, Option-cases,
  Bool-cases, inl, inr, arith,
}
use windows_verifyserver.Prelude.Counts.{erase_first}
use windows_verifyserver.Tcp.Lifecycle.{
  Life, Startup, worker_count, start_threads, post_accepts, finish_start, start_port, start,
}

-- The threads that _beginthreadex makes before it first fails.
abbrev pub made : (ℕ → Option ℕ) → ℕ → ℕ → List ℕ
made threads i zero = []
made threads i (suc n) = elim (threads i) [ none ↦ [] | some h ↦ h ∷ made threads (suc i) n ]

abbrev pub push_all : List ℕ → List ℕ → List ℕ
push_all [] handles = handles
push_all (h ∷ hs) handles = push_all hs (h ∷ handles)

abbrev pub wait_at : ℕ → List ℕ → List (ℕ × ℕ) → List (ℕ × ℕ)
wait_at port [] waiting = waiting
wait_at port (h ∷ hs) waiting = wait_at port hs ((h, port) ∷ waiting)

-- With more threads, that wait at the port.
abbrev pub with_threads : ℕ → List ℕ → Life → Life
with_threads port hs l = record l {
  workers = l.workers ++ hs;
  handles = push_all hs l.handles;
  waiting = wait_at port hs l.waiting;
}

-- With the listening socket and the completion port.
abbrev pub with_port : Bool → ℕ → ℕ → Life → Life
with_port receiver sock port l = record l {
  has_receiver = receiver;
  sock_listen = some sock;
  sockets = sock ∷ l.sockets;
  completion_port = some port;
  handles = port ∷ l.handles;
}

-- Nothing is open that was not open before.
pub record Unopened (l t : Life) : Type 0 where
  pub running : t.running ≡ l.running
  pub sockets : t.sockets ≡ l.sockets
  pub handles : t.handles ≡ l.handles
  pub workers : t.workers ≡ l.workers
  pub waiting : t.waiting ≡ l.waiting

-- How Start ends. Where the thread number `k` cannot be made, the socket, the port and the threads
-- before it are left.
pub data Outcome (w : Startup) (receiver : Bool) (l : Life) (r : Life × Bool) : Type 0 where
  refuses : r.1 ≡ false → Unopened l r.0 → Outcome w receiver l r
  leaves :
      (sock port k : ℕ)
      → w.sock ≡ some sock
      → w.port ≡ some port
      → k < worker_count w.processors
      → w.threads k ≡ none
      → length (made w.threads 0 k) ≡ k
      → r ≡ (with_threads port (made w.threads 0 k) (with_port receiver sock port l), false)
      → Outcome w receiver l r
  starts :
      (sock port : ℕ)
      → w.sock ≡ some sock
      → w.port ≡ some port
      → length (made w.threads 0 (worker_count w.processors)) ≡ worker_count w.processors
      → r ≡ (
        post_accepts w.attached (
            with_threads port
              (made w.threads 0 (worker_count w.processors))
              (with_port receiver sock port l)),
        true,
      )
      → Outcome w receiver l r

-- The loop makes all threads, or it stops at the first that cannot be made.
pub data Threads (threads : ℕ → Option ℕ) (port i n : ℕ) (l : Life) (r : Life × Bool) : Type 0 where
  all :
      length (made threads i n) ≡ n
      → r ≡ (with_threads port (made threads i n) l, true)
      → Threads threads port i n l r
  some_of :
      (k j : ℕ)
      → k < n
      → j ≡ i + k
      → threads j ≡ none
      → length (made threads i k) ≡ k
      → r ≡ (with_threads port (made threads i k) l, false)
      → Threads threads port i n l r

one_more :
    (threads : ℕ → Option ℕ) (port i n h : ℕ) (l : Life) (r : Life × Bool)
    → threads i ≡ some h
    → Threads threads port (suc i) n (with_threads port (h ∷ []) l) r
    → Threads threads port i (suc n) l r
one_more threads port i n h l r e (all c q) = all (rw (made, e, length) (omega (arith, c))) (
    q
    ∙ rw (made, e, with_threads)
        (rw (append_assoc l.workers (h ∷ []) (made threads (suc i) n)) refl))
one_more threads port i n h l r e (some_of k j b d f c q) =
    some_of (suc k) j (omega (arith, b)) (omega (arith, d)) f
      (rw (made, e, length) (omega (arith, c)))
      (q
        ∙ rw (made, e, with_threads)
            (rw (append_assoc l.workers (h ∷ []) (made threads (suc i) k)) refl))

start_threads-Threads :
    (threads : ℕ → Option ℕ) (port i n : ℕ) (l : Life)
    → Threads threads port i n l (start_threads threads port i n l)
unfolding start_threads
start_threads-Threads threads port i zero l = all refl (rw append-nil refl)
start_threads-Threads threads port i (suc n) l = elim (Option-cases (threads i)) [
  | inl e ↦ some_of 0 i (omega arith) (omega arith) e refl (rw (start_threads, e, append-nil) refl)
  | inr (h, e) ↦ one_more threads port i n h l _ e (
      rw (start_threads, e)
        (start_threads-Threads threads port (suc i) n (with_threads port (h ∷ []) l)))
]

pub opened_then_closed : (sock : ℕ) (sockets : List ℕ) → erase_first sock (sock ∷ sockets) ≡ sockets
unfolding erase_first
opened_then_closed sock sockets =
    let e : (sock == sock) ≡ true = eq→== sock sock refl in rw (erase_first, e) refl

closed-Unopened :
    (l t : Life) (sock : ℕ)
    → t.running ≡ l.running
    → t.sockets ≡ erase_first sock (sock ∷ l.sockets)
    → t.handles ≡ l.handles
    → t.workers ≡ l.workers
    → t.waiting ≡ l.waiting
    → Unopened l t
closed-Unopened l t sock r s h w q = record {
  running = r;
  sockets = s ∙ opened_then_closed sock l.sockets;
  handles = h;
  workers = w;
  waiting = q;
}

-- Start from the completion port on.
start_port-Outcome :
    (w : Startup) (receiver : Bool) (l : Life) (sock : ℕ)
    → w.sock ≡ some sock
    → let l' : Life = record l {
      has_receiver = receiver;
      sock_listen = some sock;
      sockets = sock ∷ l.sockets;
    } in
      Outcome w receiver l (start_port w sock l')
unfolding start_port
start_port-Outcome w receiver l sock e = elim (Option-cases w.port) [
  | inl f ↦
      refuses (rw (start_port, f) refl)
        (rw (start_port, f) (closed-Unopened l _ sock refl refl refl refl refl))
  | inr (port, f) ↦ through port f (
      start_threads-Threads w.threads port 0 (worker_count w.processors)
        (with_port receiver sock port l))
]
  where
    through :
        (port : ℕ)
        → w.port ≡ some port
        → Threads w.threads port 0 (worker_count w.processors) (with_port receiver sock port l) (
            start_threads w.threads port 0
              (worker_count w.processors)
              (with_port receiver sock port l))
        → Outcome w receiver l (
            start_port w sock (record l {
              has_receiver = receiver;
              sock_listen = some sock;
              sockets = sock ∷ l.sockets;
            }))
    through port f (all c q) =
        starts sock port e f c (rw (start_port, f) (ap (finish_start w.attached) q))
    through port f (some_of k j b d g c q) =
        leaves sock port k e f b (ap w.threads (omega (arith, d)) ∙ g) c
          (rw (start_port, f) (ap (finish_start w.attached) q))

-- Start of a server that is not running ends in one of three ways: it returns FALSE with nothing
-- open that was not open before; it returns FALSE where a worker thread cannot be made, and leaves
-- the listening socket, the completion port and the threads before that one; or it returns TRUE, and
-- the server runs with all its threads.
pub start-Outcome :
    (w : Startup) (receiver : Bool) (l : Life)
    → l.running ≡ false
    → Outcome w receiver l (start w receiver l)
unfolding start
start-Outcome w receiver l n = elim (Bool-cases w.ready) [
  | inr f ↦ refuses (simp (start, n, f) refl) (
      simp (start, n, f)
        (record {
          running = sym n;
          sockets = refl;
          handles = refl;
          workers = refl;
          waiting = refl;
        }))
  | inl r ↦ elim (Option-cases w.sock) [
    | inl f ↦ refuses (simp (start, n, r, f) refl) (
        simp (start, n, r, f)
          (record {
            running = sym n;
            sockets = refl;
            handles = refl;
            workers = refl;
            waiting = refl;
          }))
    | inr (sock, e) ↦ elim (Bool-cases (w.bound && w.listens)) [
      | inr f ↦
          refuses (simp (start, n, r, e, f) refl)
            (simp (start, n, r, e, f) (closed-Unopened l _ sock (sym n) refl refl refl refl))
      | inl b ↦
          simp (start, n, r, e, b)
            (subst
              (λ running. Outcome w receiver l (
                start_port w sock (record l {
                  running = running;
                  has_receiver = receiver;
                  sock_listen = some sock;
                  sockets = sock ∷ l.sockets;
                })))
              n (start_port-Outcome w receiver l sock e))
    ]
  ]
]
