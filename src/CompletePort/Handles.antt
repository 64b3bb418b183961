-- ===== src/CompletePort/Handles.antt =====
-- The handles of the threads, and how often DestroyCompletePort closes them.
use mathlib.Core.Option.{some-injective}
use windows_verifyserver.Prelude.{
  ℕ, ◌≡◌, refl, sym, ap, ◌∙◌, List, [], ◌∷◌, ◌++◌, append_assoc, append-nil, none, some, Bool,
  false, length, take, drop, Bool-cases, Option-cases, inl, inr, take-append-drop, min,
}
use windows_verifyserver.CompletePort.{
  Packet, nothing, object, Pool, leaves, pass, run, post_exits, post_batch, max_wait, Waits, over,
  batch, close_port, clear_overlapped_list, Destroys, destroys,
}
use windows_verifyserver.CompletePort.Order.{after_serving, Passed, lost, served, pass-Passed}

-- What the passes of the threads leave alone.
record Kept (s t : Pool) : Type 0 where
  threads : t.threads ≡ s.threads
  closed : t.closed ≡ s.closed
  opened : t.opened ≡ s.opened

Kept-trans : (s t u : Pool) → Kept s t → Kept t u → Kept s u
Kept-trans s t u a b = record {
  threads = b.threads ∙ a.threads;
  closed = b.closed ∙ a.closed;
  opened = b.opened ∙ a.opened;
}

after_serving-Kept :
    (is_exit : ℕ → Bool) (s : Pool) (t : ℕ) (x : Packet) (queue : List Packet)
    → Kept s (after_serving is_exit s t x queue)
after_serving-Kept is_exit s t (nothing bytes) queue = record {
  threads = refl;
  closed = refl;
  opened = refl;
}
after_serving-Kept is_exit s t (object bytes ol) queue =
    elim (Bool-cases (leaves is_exit (object bytes ol))) [
      | inl e ↦ rw e (record { threads = refl; closed = refl; opened = refl })
      | inr e ↦ rw e (record { threads = refl; closed = refl; opened = refl })
    ]

Passed-Kept : (is_exit : ℕ → Bool) (s : Pool) (t : ℕ) (u : Pool) → Passed is_exit s t u → Kept s u
Passed-Kept is_exit s t u (lost l e) =
    rw e (record { threads = refl; closed = refl; opened = refl })
Passed-Kept is_exit s t u (served x queue l q e) = rw e (after_serving-Kept is_exit s t x queue)

run-Kept :
    (is_exit : ℕ → Bool) (passes : List (ℕ × Bool)) (s t : Pool)
    → run is_exit s passes ≡ some t
    → Kept s t
unfolding run
run-Kept is_exit [] s t e =
    rw (sym (some-injective s t e)) (record { threads = refl; closed = refl; opened = refl })
run-Kept is_exit ((x, answered) ∷ passes) s t e =
    elim (Option-cases (pass is_exit s (x, answered))) [
      | inl n ↦
          let stuck : run is_exit s ((x, answered) ∷ passes) ≡ none = rw (run, n) refl in absurd cc
      | inr (u, f) ↦
          let later : run is_exit u passes ≡ some t = sym (rw (run, f) refl) ∙ e in
          Kept-trans s u t (Passed-Kept is_exit s x u (pass-Passed is_exit s x answered u f))
            (run-Kept is_exit passes u t later)
    ]

post_exits-Kept : (s : Pool) (n : ℕ) → Kept s (post_exits s n)
unfolding post_exits
post_exits-Kept s n = elim (Bool-cases s.opened) [
  | inl e ↦ rw (post_exits, e) (record { threads = refl; closed = refl; opened = refl })
  | inr e ↦ rw (post_exits, e) (record { threads = refl; closed = refl; opened = refl })
]

Waits-closed :
    (is_exit : ℕ → Bool) (s : Pool) (handles : List ℕ) (u : Pool)
    → Waits is_exit s handles u
    → (u.closed ≡ s.closed ++ handles) × (u.threads ≡ s.threads) × (u.opened ≡ s.opened)
unfolding post_batch
Waits-closed is_exit s _ u (over s') = (sym (append-nil s.closed), refl, refl)
Waits-closed is_exit s _ u (batch s' t u' handle handles passes e ended w) =
    let all = handle ∷ handles in
    let front = take max_wait all in
    let back = drop max_wait all in
    let k =
      Kept-trans s (post_exits s (min (length all) max_wait)) t
        (post_exits-Kept s (min (length all) max_wait)) (run-Kept is_exit passes _ t e) in
    let (c, h, o) = Waits-closed is_exit (record t { closed = t.closed ++ front }) back u w in
    (
      c
          ∙ append_assoc t.closed front back
          ∙ ap (λ xs. t.closed ++ xs) (take-append-drop max_wait all)
          ∙ ap (λ xs. xs ++ all) k.closed,
      h ∙ k.threads,
      o ∙ k.opened,
    )

-- What one call of DestroyCompletePort does to the handles and to the port.
Destroys-closed :
    (is_exit : ℕ → Bool) (s t : Pool) (b : Bool)
    → Destroys is_exit s (t, b)
    → (t.closed ≡ s.closed ++ s.threads)
      × (t.threads ≡ s.threads)
      × (t.opened ≡ false)
      × (b ≡ s.opened)
unfolding close_port clear_overlapped_list
Destroys-closed is_exit s _ _ (destroys u w) =
    let (c, h, o) = Waits-closed is_exit s s.threads u w in (c, h, refl, o)

-- Two calls of DestroyCompletePort, one after the other, that both come to their end: the second one,
-- as the destructor makes it, closes the handle of each thread once more and returns false, where the
-- first one returned whether the port was open.
Destroys-twice :
    (is_exit : ℕ → Bool) (s t u : Pool) (b c : Bool)
    → Destroys is_exit s (t, b)
    → Destroys is_exit t (u, c)
    → (u.closed ≡ s.closed ++ (s.threads ++ s.threads)) × (b ≡ s.opened) × (c ≡ false)
Destroys-twice is_exit s t u b c d e =
    let (x, h, o, r) = Destroys-closed is_exit s t b d in
    let (y, _, _, q) = Destroys-closed is_exit t u c e in
    (
      y
          ∙ ap (λ xs. xs ++ t.threads) x
          ∙ append_assoc s.closed s.threads t.threads
          ∙ ap (λ xs. s.closed ++ (s.threads ++ xs)) h,
      r,
      q ∙ o,
    )
