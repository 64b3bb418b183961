-- ===== src/SqlQueue/Open.antt =====
-- When the SQL queue takes statements, and which thread handles are open.
use windows_verifyserver.Prelude.{
  ℕ, ◌≡◌, refl, sym, ap, ◌∙◌, List, [], ◌∷◌, Option, none, some, Bool, true, false, ◌==◌, eq→==,
  Bool-cases, inl, inr,
}
use windows_verifyserver.Prelude.Counts.{erase_first}
use windows_verifyserver.Prelude.Results.{ok, err}
use windows_verifyserver.SqlQueue.{
  Manager, Node, Stack, new_stack, attach_db, open_stack, close_thread, exec_sql_in_stack, exec_sql,
  back, worker_pass, Pass, through, waiting, stopped,
}

abbrev pub is_some : Option ℕ → Bool
is_some none = false
is_some (some h) = true

abbrev pub handle_of : Option ℕ → List ℕ
handle_of none = []
handle_of (some h) = h ∷ []

-- The queue takes statements where it has a thread, and that thread's is the only handle.
pub record IsOpen (s : Stack) : Type 0 where
  pub running : s.manager.running ≡ is_some s.stack_thread
  pub handles : s.handles ≡ handle_of s.stack_thread

-- What happens to a queue from its constructor on.
pub data Reach : Stack → Type 0 where
  created : Reach new_stack
  attaches : (s : Stack) (attached : Bool) → Reach s → Reach (attach_db attached s)
  opens : (s : Stack) (begun : Option ℕ) → Reach s → Reach (open_stack begun s)
  closes : (s : Stack) → Reach s → Reach (close_thread s)
  queues :
      (s : Stack) (node : Node)
      → Reach s
      → Reach (record s { manager = exec_sql_in_stack s.manager node })
  works :
      (s : Stack) (m : Manager)
      → Reach s
      → worker_pass s.manager ≡ through (ok m)
      → Reach (record s { manager = m })

abbrev stack : Manager → Option ℕ → List ℕ → Stack
stack m thread handles = record { manager = m; stack_thread = thread; handles = handles }

open_stack-IsOpen :
    (m : Manager) (thread : Option ℕ) (handles : List ℕ) (begun : Option ℕ)
    → IsOpen (stack m thread handles)
    → IsOpen (open_stack begun (stack m thread handles))
unfolding open_stack
open_stack-IsOpen m (some h) handles begun v = v
open_stack-IsOpen m none handles (some h) v = record {
  running = refl;
  handles = ap (◌∷◌ h) v.handles;
}
open_stack-IsOpen m none handles none v = record { running = refl; handles = v.handles }

close_thread-IsOpen :
    (m : Manager) (thread : Option ℕ) (handles : List ℕ)
    → IsOpen (stack m thread handles)
    → IsOpen (close_thread (stack m thread handles))
unfolding close_thread erase_first
close_thread-IsOpen m none handles v = record { running = v.running; handles = v.handles }
close_thread-IsOpen m (some h) handles v =
    let b : (h == h) ≡ true = eq→== h h refl in
    record {
      running = rw v.running refl;
      handles = ap (erase_first h) v.handles ∙ rw (erase_first, b) refl;
    }

exec_sql_in_stack-running :
    (m : Manager) (node : Node) → (exec_sql_in_stack m node).running ≡ m.running
exec_sql_in_stack-running m node = elim (Bool-cases m.running) [
  | inl y ↦ simp (exec_sql_in_stack, y) refl
  | inr n ↦ simp (exec_sql_in_stack, n) refl
]

exec_sql-running : (m : Manager) (node : ℕ) → (exec_sql m node).running ≡ m.running
exec_sql-running m node = elim (Bool-cases m.attached) [
  | inl y ↦ simp (exec_sql, y) refl
  | inr n ↦ simp (exec_sql, n) refl
]

abbrev after_pass : Manager → Pass → Manager
after_pass d stopped = d
after_pass d waiting = d
after_pass d (through (ok m)) = m
after_pass d (through (err e)) = d

worker_pass-running : (m : Manager) → (after_pass m (worker_pass m)).running ≡ m.running
unfolding worker_pass
worker_pass-running m = go m.running m.queue m.signalled
  where
    go :
        (running : Bool) (queue : List ℕ) (signalled : Bool)
        → let n : Manager = record m { running = running; queue = queue; signalled = signalled } in
          (after_pass n (worker_pass n)).running ≡ running
    go false queue signalled = refl
    go true [] true = refl
    go true [] false = refl
    go true (x ∷ xs) signalled =
        exec_sql-running (record m { running = true; queue = xs; signalled = signalled })
          (back x xs)

-- In every state that a queue reaches, whatever is opened, closed, queued and worked on and in
-- whatever order, it takes statements exactly where it has a thread, and the handle of that thread is
-- the only one that is open.
pub Reach-IsOpen : (s : Stack) → Reach s → IsOpen s
Reach-IsOpen _ created = record { running = refl; handles = refl }
Reach-IsOpen _ (attaches s attached r) =
    let v = Reach-IsOpen s r in record { running = v.running; handles = v.handles }
Reach-IsOpen _ (opens s begun r) =
    open_stack-IsOpen s.manager s.stack_thread s.handles begun (Reach-IsOpen s r)
Reach-IsOpen _ (closes s r) =
    close_thread-IsOpen s.manager s.stack_thread s.handles (Reach-IsOpen s r)
Reach-IsOpen _ (queues s node r) =
    let v = Reach-IsOpen s r in
    record { running = exec_sql_in_stack-running s.manager node ∙ v.running; handles = v.handles }
Reach-IsOpen _ (works s m r e) =
    let v = Reach-IsOpen s r in
    let same : m.running ≡ s.manager.running =
      sym (ap (λ x. (after_pass s.manager x).running) e) ∙ worker_pass-running s.manager in
    record { running = same ∙ v.running; handles = v.handles }
