-- ===== src/Tcp/Lifecycle/Stuck.antt =====
-- Where Stop of CTcpServer does not come to its end.
use windows_verifyserver.Prelude.{
  ℕ, zero, suc, ◌<◌, ◌≡◌, ◌≢◌, refl, sym, ap, subst, ◌∙◌, List, [], ◌∷◌, Option, some, Bool, true,
  false, ◌&&◌, ◌==◌, ==_iff, ltb, ne→==, Option-cases, Bool-cases, inl, inr, arith,
}
use windows_verifyserver.Prelude.Counts.{count, count-append, same, same_self}
use windows_verifyserver.Prelude.Results.{err, use_after_free}
use windows_verifyserver.Tcp.Connections.{Server, find}
use windows_verifyserver.Tcp.Lifecycle.{
  Life, Startup, worker_count, post_accepts, start, ends, all_end, delete_clients, waits, faults,
  end_threads, close_all, stop,
}
use windows_verifyserver.Tcp.Lifecycle.Starts.{
  made, wait_at, with_threads, with_port, Outcome, refuses, leaves, starts, start-Outcome,
}
use windows_verifyserver.Tcp.Lifecycle.Stops.{IsStopped, count-push_all}

and_false : (b : Bool) → (b && false) ≡ false
and_false true = refl
and_false false = refl

-- A thread that waits at another port than that of the exit packets never ends.
all_end-stuck :
    (port : ℕ) (waiting : List (ℕ × ℕ)) (workers : List ℕ) (h q : ℕ)
    → 0 < count h workers
    → find waiting h ≡ some q
    → q ≢ port
    → all_end (some port) waiting workers ≡ false
unfolding all_end count
all_end-stuck port waiting [] h q m f n = absurd (omega arith)
all_end-stuck port waiting (x ∷ workers) h q m f n = elim (Bool-cases (x == h)) [
  | inl y ↦
      let e : ends (some port) (find waiting x) ≡ false =
        ap (λ i. ends (some port) (find waiting i)) ((==_iff x h).0 y)
        ∙ ap (ends (some port)) f
        ∙ ne→== q port n in
      rw e refl
  | inr d ↦
      let m' : 0 < count h workers = ground (arith, m, d) in
      rw (all_end-stuck port waiting workers h q m' f n)
        (and_false (ends (some port) (find waiting x)))
]

stop-stuck :
    (during : Server → Server) (t : Life) (port h q : ℕ)
    → t.running ≡ true
    → t.completion_port ≡ some port
    → 0 < count h t.workers
    → find t.waiting h ≡ some q
    → q ≢ port
    → stop during t ≡ waits
unfolding stop close_all end_threads
stop-stuck during t port h q r p m f n =
    simp (stop, r, end_threads, p, all_end-stuck port t.waiting t.workers h q m f n) refl

-- Threads with other handles do not hide where one waits.
find-wait_at :
    (port h : ℕ) (hs : List ℕ) (waiting : List (ℕ × ℕ))
    → count h hs ≡ 0
    → find (wait_at port hs waiting) h ≡ find waiting h
unfolding count
find-wait_at port h [] waiting z = refl
find-wait_at port h (x ∷ hs) waiting z =
    let d : (x == h) ≡ false = ground (arith, z) in
    find-wait_at port h hs ((x, port) ∷ waiting) (omega (arith, z)) ∙ rw d refl

deleted_once :
    (context : ℕ)
    → (ltb 0 (count context []) ≡ false) × (ltb 0 (count context (context ∷ [])) ≡ true)
unfolding count
deleted_once context = (ground arith, ground (arith, same_self context))

-- The loop deletes the first of the clients and then reads it again.
delete_clients-fault :
    (key context : ℕ) (clients : List (ℕ × ℕ)) (s : Server)
    → delete_clients 2 ((key, context) ∷ clients) [] s ≡ err use_after_free
unfolding delete_clients
delete_clients-fault key context clients s =
    let (a, b) = deleted_once context in rw (delete_clients, a, b) refl

-- Where the threads end but a client is left when the time is over, Stop reads the context of the
-- first client after it has deleted it.
pub stop-clients :
    (during : Server → Server) (t : Life) (key context : ℕ) (clients : List (ℕ × ℕ))
    → t.running ≡ true
    → all_end t.completion_port t.waiting t.workers ≡ true
    → (during (close_all t).server).clients ≡ (key, context) ∷ clients
    → stop during t ≡ faults use_after_free
unfolding stop close_all end_threads
stop-clients during t key context clients r e k =
    simp (stop, r, end_threads, e, k, delete_clients-fault) refl

find-wait_at_new :
    (port h : ℕ) (hs : List ℕ) (waiting : List (ℕ × ℕ))
    → 0 < count h hs
    → find (wait_at port hs waiting) h ≡ some port
unfolding count
find-wait_at_new port h [] waiting m = absurd (omega arith)
find-wait_at_new port h (x ∷ hs) waiting m = elim (Bool-cases (ltb 0 (count h hs))) [
  | inl b ↦ find-wait_at_new port h hs ((x, port) ∷ waiting) (ground (arith, b))
  | inr b ↦
      let z : count h hs ≡ 0 = ground (arith, b) in
      let y : (x == h) ≡ true = ground (arith, z, m) in
      find-wait_at port h hs ((x, port) ∷ waiting) z ∙ rw y refl
]

made-fresh :
    (threads : ℕ → Option ℕ) (i n h : ℕ) (handles : List ℕ)
    → ((j x : ℕ) → threads j ≡ some x → count x handles ≡ 0)
    → 0 < count h handles
    → count h (made threads i n) ≡ 0
unfolding count
made-fresh threads i zero h handles f m = refl
made-fresh threads i (suc n) h handles f m = elim (Option-cases (threads i)) [
  | inl e ↦ rw (made, e, count) refl
  | inr (x, e) ↦
      let y : h ≢ x = λ y. omega (arith, f i x e, m, ap (λ k. count k handles) y) in
      let z : same h x ≡ 0 = rw (ne→== h x y) refl in
      rw (made, e, count) (omega (arith, z, made-fresh threads (suc i) n h handles f m))
]

one_of : (hs : List ℕ) → hs ≢ [] → (h : ℕ) × (0 < count h hs)
unfolding count
one_of [] n = absurd (n refl)
one_of (h ∷ hs) n = (h, omega (arith, same_self h))

-- A thread that a failed Start leaves, and the port that it waits at.
record Left (w : Startup) (t : Life) : Type 0 where
  h : ℕ
  q : ℕ
  port : w.port ≡ some q
  worker : 0 < count h t.workers
  handle : 0 < count h t.handles
  there : find t.waiting h ≡ some q
  ended : t.running ≡ false

start-Left :
    (w : Startup) (receiver : Bool) (l t : Life)
    → IsStopped l
    → start w receiver l ≡ (t, false)
    → t.workers ≢ []
    → Left w t
start-Left w receiver l t v e n = go (start-Outcome w receiver l v.running)
  where
    go : Outcome w receiver l (start w receiver l) → Left w t
    go (refuses f x) =
        let k : t.workers ≡ [] = sym (ap (λ r. r.0.workers) e) ∙ x.workers ∙ v.workers in
        absurd (n k)
    go (leaves sock port i a b c d x q) =
        let hs = made w.threads 0 i in
        let m : with_threads port hs (with_port receiver sock port l) ≡ t =
          sym (ap (λ r. r.0) q) ∙ ap (λ r. r.0) e in
        let ws : t.workers ≡ hs = sym (ap (λ x. x.workers) m) ∙ rw v.workers refl in
        let (h, k) = one_of hs (λ y. n (ws ∙ y)) in
        subst (Left w) m (record {
          h = h;
          q = port;
          port = b;
          worker = omega (arith, count-append h l.workers hs, k);
          handle = omega (arith, count-push_all h hs (port ∷ l.handles), k);
          there = find-wait_at_new port h hs l.waiting k;
          ended = v.running;
        })
    go (starts sock port a b c q) =
        let g : false ≡ true = sym (ap (λ r. r.1) e) ∙ ap (λ r. r.1) q in absurd cc

stop-up_stuck :
    (during : Server → Server) (w : Startup) (receiver : Bool) (sock port : ℕ) (hs : List ℕ)
    (t : Life) (h q : ℕ)
    → 0 < count h t.workers
    → find (wait_at port hs t.waiting) h ≡ some q
    → q ≢ port
    → stop during (post_accepts w.attached (with_threads port hs (with_port receiver sock port t)))
      ≡ waits
unfolding post_accepts
stop-up_stuck during w receiver sock port hs t h q m f n =
    stop-stuck during
      (post_accepts w.attached (with_threads port hs (with_port receiver sock port t))) port h q
      refl refl (omega (arith, count-append h t.workers hs, m)) f n

-- A Start that cannot make one of its threads after the first, and returns FALSE, is followed by a
-- Start that succeeds, where Windows gives out no handle that is open: then Stop never returns,
-- whatever the worker threads do.
pub start-again-waits :
    (w w' : Startup) (receiver receiver' : Bool) (during : Server → Server) (l t u : Life)
    → IsStopped l
    → start w receiver l ≡ (t, false)
    → t.workers ≢ []
    → start w' receiver' t ≡ (u, true)
    → w.port ≢ w'.port
    → ((i h : ℕ) → w'.threads i ≡ some h → count h t.handles ≡ 0)
    → stop during u ≡ waits
start-again-waits w w' receiver receiver' during l t u v e n e' p fresh =
    go (start-Outcome w' receiver' t k.ended)
  where
    k : Left w t
    k = start-Left w receiver l t v e n

    go : Outcome w' receiver' t (start w' receiver' t) → stop during u ≡ waits
    go (refuses f x) = let g : true ≡ false = sym (ap (λ r. r.1) e') ∙ f in absurd cc
    go (leaves sock port i a b c d x q) =
        let g : true ≡ false = sym (ap (λ r. r.1) e') ∙ ap (λ r. r.1) q in absurd cc
    go (starts sock port a b c q) =
        let hs = made w'.threads 0 (worker_count w'.processors) in
        let m = sym (ap (λ r. r.0) q) ∙ ap (λ r. r.0) e' in
        let z : count k.h hs ≡ 0 = made-fresh w'.threads 0 _ k.h t.handles fresh k.handle in
        subst (λ x. stop during x ≡ waits) m
          (stop-up_stuck during w' receiver' sock port hs t k.h k.q k.worker
            (find-wait_at port k.h hs t.waiting z ∙ k.there) (λ y. p (k.port ∙ ap some y ∙ sym b)))
