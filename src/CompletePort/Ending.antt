-- ===== src/CompletePort/Ending.antt =====
-- How DestroyCompletePort ends the threads of the completion port.
use mathlib.Core.Option.{some-injective}
use windows_verifyserver.Prelude.{
  ℕ, zero, suc, ◌+◌, ◌≤◌, ◌<◌, ◌≡◌, refl, sym, ap, ◌∙◌, List, [], ◌∷◌, ◌++◌, none, some, Bool, true,
  ltb, lt→ltb, length, replicate, Bool-cases, Option-cases, inl, inr, arith,
}
use windows_verifyserver.Prelude.Counts.{count, erase_first, same_self}
use windows_verifyserver.CompletePort.{
  Packet, nothing, object, Pool, leaves, serve, pass, run, post_exits, exit_code,
}
use windows_verifyserver.CompletePort.Order.{after_serving, Passed, lost, served, pass-Passed}

-- How many packets end the thread that gets them, whatever the objects say.
abbrev pub exits : List Packet → ℕ
exits [] = 0
exits (nothing bytes ∷ queue) = suc (exits queue)
exits (object bytes ol ∷ queue) = exits queue

exits-append : (xs ys : List Packet) → exits (xs ++ ys) ≡ exits xs + exits ys
exits-append [] ys = omega arith
exits-append (nothing bytes ∷ xs) ys = omega (arith, exits-append xs ys)
exits-append (object bytes ol ∷ xs) ys = omega (arith, exits-append xs ys)

exits-replicate : (n : ℕ) → exits (replicate n (nothing exit_code)) ≡ n
exits-replicate zero = refl
exits-replicate (suc n) = omega (arith, exits-replicate n)

length-erase_first :
    (a : ℕ) (xs : List ℕ) → 0 < count a xs → suc (length (erase_first a xs)) ≡ length xs
unfolding count erase_first
length-erase_first a [] h = absurd (omega arith)
length-erase_first a (x ∷ xs) h = ground (arith, length-erase_first a xs)

-- There are exit packets enough for the threads that run.
abbrev pub Enough : Pool → Type 0
Enough s = length s.alive ≤ exits s.queue

serve-alive : (s : Pool) (x : Packet) → (serve s x).alive ≡ s.alive
serve-alive s (nothing bytes) = refl
serve-alive s (object bytes ol) = refl

serve-queue : (s : Pool) (x : Packet) → (serve s x).queue ≡ s.queue
serve-queue s (nothing bytes) = refl
serve-queue s (object bytes ol) = refl

after_serving-Enough :
    (is_exit : ℕ → Bool) (s : Pool) (t : ℕ) (x : Packet) (queue : List Packet)
    → 0 < count t s.alive
    → s.queue ≡ x ∷ queue
    → Enough s
    → Enough (after_serving is_exit s t x queue)
      × ((after_serving is_exit s t x queue).queue ≡ queue)
after_serving-Enough is_exit s t (nothing bytes) queue c q h =
    (omega (arith, length-erase_first t s.alive c, h, ap exits q), refl)
after_serving-Enough is_exit s t (object bytes ol) queue c q h =
    elim (Bool-cases (leaves is_exit (object bytes ol))) [
      | inl e ↦ rw e ((omega (arith, length-erase_first t s.alive c, h, ap exits q), refl))
      | inr e ↦ rw e ((omega (arith, h, ap exits q), refl))
    ]

Passed-Enough :
    (is_exit : ℕ → Bool) (s : Pool) (t : ℕ) (u : Pool) → Passed is_exit s t u → Enough s → Enough u
Passed-Enough is_exit s t u (lost c e) h = rw e (omega (arith, length-erase_first t s.alive c, h))
Passed-Enough is_exit s t u (served x queue c q e) h =
    rw e (after_serving-Enough is_exit s t x queue c q h).0

run-Enough :
    (is_exit : ℕ → Bool) (passes : List (ℕ × Bool)) (s t : Pool)
    → run is_exit s passes ≡ some t
    → Enough s
    → Enough t
unfolding run
run-Enough is_exit [] s t e h = rw (sym (some-injective s t e)) h
run-Enough is_exit ((x, answered) ∷ passes) s t e h =
    elim (Option-cases (pass is_exit s (x, answered))) [
      | inl n ↦
          let stuck : run is_exit s ((x, answered) ∷ passes) ≡ none = rw (run, n) refl in absurd cc
      | inr (u, f) ↦
          let later : run is_exit u passes ≡ some t = sym (rw (run, f) refl) ∙ e in
          run-Enough is_exit passes u t later
            (Passed-Enough is_exit s x u (pass-Passed is_exit s x answered u f) h)
    ]

post_exits-Enough :
    (s : Pool) (n : ℕ) → s.opened ≡ true → length s.alive ≤ n → Enough (post_exits s n)
unfolding post_exits
post_exits-Enough s n o h =
    rw (post_exits, o)
      (omega (arith, exits-append s.queue (replicate n (nothing exit_code)), exits-replicate n, h))

pass-first :
    (is_exit : ℕ → Bool) (s : Pool) (t : ℕ) (alive : List ℕ) (x : Packet) (queue : List Packet)
    → s.alive ≡ t ∷ alive
    → s.queue ≡ x ∷ queue
    → pass is_exit s (t, true) ≡ some (after_serving is_exit s t x queue)
unfolding pass count
pass-first is_exit s t alive x queue a q =
    let c : ltb 0 (count t s.alive) ≡ true =
      lt→ltb 0 (count t s.alive) (rw a (omega (arith, same_self t))) in
    rw (pass, c, q) refl

-- The threads can go on to a state where none runs.
abbrev pub CanEnd : (ℕ → Bool) → Pool → Type 0
CanEnd is_exit s =
    (passes : List (ℕ × Bool)) × (t : Pool) × (run is_exit s passes ≡ some t) × (t.alive ≡ [])

CanEnd-pass :
    (is_exit : ℕ → Bool) (s u : Pool) (x : ℕ × Bool)
    → pass is_exit s x ≡ some u
    → CanEnd is_exit u
    → CanEnd is_exit s
unfolding run
CanEnd-pass is_exit s u x e (passes, t, f, g) = (x ∷ passes, t, rw (run, e) f, g)

Enough-CanEnd :
    (is_exit : ℕ → Bool) (queue : List Packet) (alive : List ℕ) (s : Pool)
    → s.queue ≡ queue
    → s.alive ≡ alive
    → Enough s
    → CanEnd is_exit s
unfolding run count
Enough-CanEnd is_exit queue [] s q a h = ([], s, refl, a)
Enough-CanEnd is_exit [] (x ∷ alive) s q a h = absurd (omega (arith, ap length a, ap exits q, h))
Enough-CanEnd is_exit (y ∷ queue) (x ∷ alive) s q a h =
    let u = after_serving is_exit s x y queue in
    let c : 0 < count x s.alive = rw a (omega (arith, same_self x)) in
    let v = after_serving-Enough is_exit s x y queue c q h in
    CanEnd-pass is_exit s u (x, true) (pass-first is_exit s x alive y queue a q)
      (Enough-CanEnd is_exit queue u.alive u v.1 refl v.0)

-- Once an exit packet has been posted to an open port for each thread that runs, the threads can go
-- on, from wherever they have come to, until none runs, and none runs when the queue is empty.
pub post_exits-CanEnd :
    (is_exit : ℕ → Bool) (s t : Pool) (n : ℕ) (passes : List (ℕ × Bool))
    → s.opened ≡ true
    → length s.alive ≤ n
    → run is_exit (post_exits s n) passes ≡ some t
    → CanEnd is_exit t × (t.queue ≡ [] → t.alive ≡ [])
post_exits-CanEnd is_exit s t n passes o h e =
    let v = run-Enough is_exit passes (post_exits s n) t e (post_exits-Enough s n o h) in
    (
      Enough-CanEnd is_exit t.queue t.alive t refl refl v,
      λ q. no_more t.alive (omega (arith, v, ap exits q)),
    )
  where
    no_more : (alive : List ℕ) → length alive ≤ 0 → alive ≡ []
    no_more [] l = refl
    no_more (x ∷ alive) l = absurd (omega arith)
