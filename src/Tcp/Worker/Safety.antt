-- ===== src/Tcp/Worker/Safety.antt =====
-- A worker thread that serves a completion of the server's own.
use windows_verifyserver.Prelude.{
  ℕ, zero, suc, ◌≤◌, ◌<◌, ◌≡◌, ◌⊎◌, refl, sym, ◌∙◌, List, [], ◌∷◌, some, Bool, true, ◌==◌, ltb,
  ltb→lt, length, get_elem?, Option-cases, Bool-cases, inl, inr, arith,
}
use mathlib.Core.Bool.{true≢false}
use windows_verifyserver.Prelude.Counts.{count, erase_first}
use windows_verifyserver.Prelude.Results.{Result, ok, err, ◌>>=◌, bad_alloc, use_after_free}
use windows_verifyserver.Tcp.Platform.{Platform, IsSound}
use windows_verifyserver.Tcp.Receive.{Delivery}
use windows_verifyserver.Tcp.Connections.{
  Server, SocketContext, Io, find, add_free_io_context, add_free_socket_context, max_buffer,
}
use windows_verifyserver.Tcp.Worker.{
  Completion, posted, ended, Answers, Step, goes_on, exits, on_disconnect, conn_of, is_accept,
  on_error, accept_next, serve_ended, on_ended, on_posted, worker_step, si_accept, si_disconnect,
  si_exit, io_pending,
}
use windows_verifyserver.Tcp.Worker.Holds.{
  Holds, add_free_io-Holds, add_free_socket-Holds, take_back-Holds,
}
use windows_verifyserver.Tcp.Worker.Steps.{
  Outcome, done, no_memory, let_go, accept_next-Holds, dispatch-Outcome, on_error-Holds,
}

-- The key that an operation ends with: a context that exists, but for an accept.
abbrev pub Keyed : Server → Io → ℕ → Type 0
Keyed s c key = (is_accept c.so ≡ true) ⊎ (key < length s.contexts)

-- A completion of something that the server has started: an operation on an IO_CONTEXT that is in
-- flight, of a buffer's length at most, or one of the packets that it posts.
pub data IsGenuine (s : Server) : Completion → Type 0 where
  operation :
      (io key : ℕ) (bytes : List ℕ) (error : ℕ) (c : Io)
      → get_elem? s.io_store io ≡ some c
      → 0 < count io s.in_flight
      → Keyed s c key
      → length bytes ≤ max_buffer
      → IsGenuine s (ended io key bytes error)
  accepts : (key : ℕ) → IsGenuine s (posted si_accept key)
  disconnects : (key : ℕ) → IsGenuine s (posted si_disconnect key)
  ends : IsGenuine s (posted si_exit 0)

-- The pass is through with the contexts in order, or `new` has thrown, or the SOCKET_CONTEXT that the
-- operation began with has been deleted.
pub data Served (s : Server) : Completion → Result Step → Type 0 where
  through :
      (c : Completion) (t : Server) (out : List Delivery)
      → Holds [] t
      → Served s c (ok (goes_on t out))
  over : (c : Completion) (t : Server) → Holds [] t → Served s c (ok (exits t))
  fails : (c : Completion) → Served s c (err bad_alloc)
  stale :
      (io key : ℕ) (bytes : List ℕ) (error : ℕ)
      → 0 < count key s.deleted
      → Served s (ended io key bytes error) (err use_after_free)

get_context :
    (cs : List SocketContext) (i : ℕ)
    → i < length cs
    → (c : SocketContext) × (get_elem? cs i ≡ some c)
get_context [] i h = elim h [ ]
get_context (x ∷ cs) zero h = (x, refl)
get_context (x ∷ cs) (suc i) h = get_context cs i (omega arith)

conn_of_lem :
    (s : Server) (c : Io) (key : ℕ)
    → Keyed s c key
    → ((id : ℕ) × (conn_of s c key ≡ ok id))
      ⊎ ((0 < count key s.deleted) × (conn_of s c key ≡ err use_after_free))
unfolding conn_of
conn_of_lem s c key k = elim (Bool-cases (is_accept c.so)) [
  | inl t ↦ inl (0, rw (conn_of, t) refl)
  | inr f ↦ elim (Bool-cases (ltb 0 (count key s.deleted))) [
    | inl d ↦ inr (ltb→lt 0 (count key s.deleted) d, rw (conn_of, f, d) refl)
    | inr d ↦ elim k [
      | inl t ↦ absurd (true≢false (sym t ∙ f))
      | inr h ↦
          let g = get_context s.contexts key h in inl (g.0.conn_id, rw (conn_of, f, d, g.1) refl)
    ]
  ]
]

on_disconnect-Holds : (s : Server) (id : ℕ) → Holds [] s → Holds [] (on_disconnect s id)
on_disconnect-Holds s id v = elim (Option-cases (find s.clients id)) [
  | inl e ↦ rw (on_disconnect, e) v
  | inr (c, e) ↦ rw (on_disconnect, e) (add_free_socket-Holds [] s id v)
]

module _ (p : Platform) (sound : IsSound p) (receiver : Bool) where
  serve_ended-Outcome :
      (a : Answers) (s : Server) (io : ℕ) (c : Io) (conn_id : ℕ) (bytes : List ℕ) (error : ℕ)
      → Holds (io ∷ []) s
      → get_elem? s.io_store io ≡ some c
      → length bytes ≤ max_buffer
      → Outcome (serve_ended p receiver a s io c conn_id bytes error)
  unfolding serve_ended
  serve_ended-Outcome a s io c conn_id bytes error v e h = elim (Bool-cases (error == 0)) [
    | inr f ↦ elim (Bool-cases (error == io_pending)) [
      | inl t ↦ done s [] (let_go s io v) (rw (serve_ended, f, t) refl)
      | inr g ↦
          done (on_error s io c conn_id error) []
            (on_error-Holds p sound receiver s io c conn_id error v) (rw (serve_ended, f, g) refl)
    ]
    | inl t ↦ rw (serve_ended, t) (good bytes h)
  ]
    where
      good :
          (bytes : List ℕ)
          → length bytes ≤ max_buffer
          → Outcome (serve_ended p receiver a s io c conn_id bytes 0)
      good [] h = elim (Bool-cases (is_accept c.so)) [
        | inl t ↦
            rw (serve_ended, t)
              (dispatch-Outcome p sound receiver a s io c c.so conn_id [] refl v e h)
        | inr f ↦
            done (add_free_io_context (add_free_socket_context s conn_id) io) []
              (add_free_io-Holds [] _ io (add_free_socket-Holds (io ∷ []) s conn_id v))
              (rw (serve_ended, f) refl)
      ]
      good (x ∷ xs) h = dispatch-Outcome p sound receiver a s io c c.so conn_id (x ∷ xs) refl v e h

  Outcome-Served :
      (s : Server) (c : Completion) (r : Result (Server × List Delivery))
      → Outcome r
      → Served s c (r >>= λ r'. ok (goes_on r'.0 r'.1))
  Outcome-Served s c r (done t out v e) = rw e (through c t out v)
  Outcome-Served s c r (no_memory e) = rw e (fails c)

  pub worker_step-Served :
      (a : Answers) (s : Server) (c : Completion)
      → Holds [] s
      → IsGenuine s c
      → Served s c (worker_step p receiver a s c)
  unfolding worker_step on_ended on_posted
  worker_step-Served a s _ v (operation io key bytes error c e f k h) =
      let s' : Server = record s { in_flight = erase_first io s.in_flight } in
      elim (conn_of_lem s c key k) [
        | inl (id, g) ↦
            rw (worker_step, on_ended, e, g)
              (Outcome-Served s (ended io key bytes error) _
                (serve_ended-Outcome a s' io c id bytes error (take_back-Holds s io v f) e h))
        | inr (d, g) ↦ rw (worker_step, on_ended, e, g) (stale io key bytes error d)
      ]
  worker_step-Served a s _ v (accepts key) =
      through (posted si_accept key) (accept_next a s) [] (accept_next-Holds a s v)
  worker_step-Served a s _ v (disconnects key) =
      through (posted si_disconnect key) (on_disconnect s key) [] (on_disconnect-Holds s key v)
  worker_step-Served a s _ v ends = over (posted si_exit 0) s v
