-- ===== src/CompletePort/Deadlock.antt =====
-- How DestroyCompletePort can wait for ever.
use windows_verifyserver.Prelude.{
  ℕ, ◌≤◌, min, subst, ◌<◌, ◌≡◌, refl, sym, ap, ◌∙◌, List, [], ◌∷◌, ◌++◌, none, some, Bool, true,
  ltb, lt→ltb, length, replicate, take, drop, Bool-cases, inl, inr, arith, take-append-drop,
  length-take,
}
use windows_verifyserver.Prelude.Counts.{count, erase_first, same_self, same, count-append}
use windows_verifyserver.CompletePort.{
  Packet, nothing, Pool, AllEnded, pass, run, post_exits, post_batch, exit_code, max_wait,
}

-- The thread `x` takes an exit packet.
abbrev ended : Pool → ℕ → List Packet → Pool
ended s x queue = record s { queue = queue; alive = erase_first x s.alive }

pass-ended :
    (is_exit : ℕ → Bool) (s : Pool) (x : ℕ) (queue : List Packet)
    → 0 < count x s.alive
    → s.queue ≡ nothing exit_code ∷ queue
    → pass is_exit s (x, true) ≡ some (ended s x queue)
unfolding pass
pass-ended is_exit s x queue c q = rw (pass, lt→ltb 0 (count x s.alive) c, q) refl

erase_first-second : (a x : ℕ) (xs : List ℕ) → same a x ≡ 0 → erase_first x (a ∷ x ∷ xs) ≡ a ∷ xs
unfolding erase_first
erase_first-second a x xs h = ground arith

-- The exit packets go to other threads than the first.
others-end :
    (is_exit : ℕ → Bool) (first : ℕ) (others more : List ℕ) (s : Pool)
    → s.alive ≡ first ∷ others ++ more
    → count first others ≡ 0
    → s.queue ≡ replicate (length others) (nothing exit_code)
    → (passes : List (ℕ × Bool)) × (t : Pool) × (run is_exit s passes ≡ some t)
      × (t.alive ≡ first ∷ more)
      × (t.queue ≡ [])
unfolding run count
others-end is_exit first [] more s a c q = ([], s, refl, a, q)
others-end is_exit first (x ∷ others) more s a c q =
    let queue = replicate (length others) (nothing exit_code) in
    let here : 0 < count x s.alive = rw a (omega (arith, same_self x)) in
    let e : erase_first x s.alive ≡ first ∷ others ++ more =
      ap (erase_first x) a ∙ erase_first-second first x (others ++ more) (omega (arith, c)) in
    let (passes, t, r, l, k) =
      others-end is_exit first others more (ended s x queue) e (omega (arith, c)) refl in
    ((x, true) ∷ passes, t, rw (run, pass-ended is_exit s x queue here q) r, l, k)

-- No thread gets anything from an empty queue.
pass-waits :
    (is_exit : ℕ → Bool) (t : Pool) (x : ℕ) → t.queue ≡ [] → pass is_exit t (x, true) ≡ none
unfolding pass
pass-waits is_exit t x q = elim (Bool-cases (ltb 0 (count x t.alive))) [
  | inl c ↦ rw (pass, c, q) refl
  | inr c ↦ rw (pass, c) refl
]

-- The 64 exit packets can go to other threads than the first, which then waits.
exits-deadlock :
    (is_exit : ℕ → Bool) (s : Pool) (first : ℕ) (others : List ℕ)
    → s.opened ≡ true
    → s.queue ≡ []
    → s.alive ≡ first ∷ others
    → count first others ≡ 0
    → max_wait ≤ length others
    → (passes : List (ℕ × Bool)) × (t : Pool) × (run is_exit (post_exits s max_wait) passes
        ≡ some t)
      × (0 < count first t.alive)
      × ((x : ℕ) → pass is_exit t (x, true) ≡ none)
unfolding post_exits count
exits-deadlock is_exit s first others o q a c l =
    let front = take max_wait others in
    let more = drop max_wait others in
    let split = take-append-drop max_wait others in
    let fit : length front ≡ max_wait = omega (arith, length-take max_wait others, l) in
    let u = post_exits s max_wait in
    let alive : u.alive ≡ first ∷ front ++ more = rw (o) (a ∙ ap (λ xs. first ∷ xs) (sym split)) in
    let none_first : count first front ≡ 0 =
      omega (arith, count-append first front more, ap (count first) split, c) in
    let queue : u.queue ≡ replicate (length front) (nothing exit_code) = rw (fit, o, q) refl in
    let (passes, t, r, v, w) = others-end is_exit first front more u alive none_first queue in
    (passes, t, r, rw v (omega (arith, same_self first)), λ x. pass-waits is_exit t x w)

-- DestroyCompletePort of an open port with an empty queue, whose threads all run, are more than 64 and
-- are all different from the first of them: the exit packets that it posts before it waits for its
-- first batch can all go to threads other than the first one. Not all threads of the batch have ended
-- then, and no thread gets a packet any more, so that the wait never ends.
pub post_batch-deadlock :
    (is_exit : ℕ → Bool) (s : Pool) (first : ℕ) (others : List ℕ)
    → s.opened ≡ true
    → s.queue ≡ []
    → s.threads ≡ first ∷ others
    → s.alive ≡ first ∷ others
    → count first others ≡ 0
    → max_wait ≤ length others
    → (passes : List (ℕ × Bool)) × (t : Pool) × (run is_exit (post_batch s s.threads) passes
        ≡ some t)
      × (¬ AllEnded t (take max_wait s.threads))
      × ((x : ℕ) → pass is_exit t (x, true) ≡ none)
unfolding post_batch
post_batch-deadlock is_exit s first others o q h a c l =
    let n : min (length s.threads) max_wait ≡ max_wait =
      ap (λ xs. min (length xs) max_wait) h ∙ omega (arith, l) in
    let (passes, t, r, v, w) = exits-deadlock is_exit s first others o q a c l in
    (
      passes,
      t,
      rw (post_batch, n) r,
      λ all.
          let e : AllEnded t (first ∷ take 63 others) =
            subst (λ xs. AllEnded t (take max_wait xs)) h all in
          absurd (omega (arith, v, e.0)),
      w,
    )
