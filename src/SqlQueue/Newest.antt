-- ===== src/SqlQueue/Newest.antt =====
-- The queue is read at its end and emptied at its front.
use windows_verifyserver.Prelude.{
  ℕ, suc, ◌≡◌, refl, ap, ◌∙◌, List, [], ◌∷◌, ◌++◌, true, length, replicate, append_assoc,
}
use windows_verifyserver.Prelude.Results.{ok}
use windows_verifyserver.SqlQueue.{
  Manager, back, exec_sql, serve, serve_all, close_queue, close_stack,
}

pub back-last : (x : ℕ) (xs : List ℕ) (newest : ℕ) → back x (xs ++ newest ∷ []) ≡ newest
back-last x [] newest = refl
back-last x (y ∷ ys) newest = back-last y ys newest

close_queue-newest :
    (older : List ℕ) (newest : ℕ)
    → close_queue (older ++ newest ∷ []) ≡ replicate (suc (length older)) newest
close_queue-newest [] newest = refl
close_queue-newest (x ∷ older) newest =
    rw (back-last x older newest, close_queue-newest older newest) refl

serve-newest :
    (m : Manager) (x : ℕ) (older : List ℕ) (newest : ℕ)
    → m.attached ≡ true
    → m.queue ≡ x ∷ (older ++ newest ∷ [])
    → serve m ≡ ok (record m { queue = older ++ newest ∷ []; executed = m.executed ++ newest ∷ [] })
serve-newest m x older newest a q = simp (serve, q, exec_sql, a, back-last x older newest) refl

-- With a database attached, the worker executes the newest of the queued statements over and over,
-- once for each of the queue, and never any other one, as long as none is queued meanwhile.
pub serve_all-newest :
    (m : Manager) (older : List ℕ) (newest : ℕ)
    → m.attached ≡ true
    → m.queue ≡ older ++ newest ∷ []
    → serve_all (suc (length older)) m
      ≡ ok (record m { queue = []; executed = m.executed ++ replicate (suc (length older)) newest })
unfolding serve_all
serve_all-newest m [] newest a q = rw (serve, q, a) refl
serve_all-newest m (x ∷ older) newest a q =
    let m' : Manager = record m {
      queue = older ++ newest ∷ [];
      executed = m.executed ++ newest ∷ [];
    } in
    rw (serve-newest m x older newest a q) (
      serve_all-newest m' older newest a refl
      ∙ ap (λ log. ok (record m { queue = []; executed = log }))
          (append_assoc m.executed (newest ∷ []) (replicate (suc (length older)) newest)))

-- CloseStack deletes the newest queued node once for each node of the queue.
pub close_stack-newest :
    (m : Manager) (older : List ℕ) (newest : ℕ)
    → m.queue ≡ older ++ newest ∷ []
    → (close_stack m).deleted ≡ m.deleted ++ replicate (suc (length older)) newest
close_stack-newest m older newest q = rw (q, close_queue-newest older newest) refl
