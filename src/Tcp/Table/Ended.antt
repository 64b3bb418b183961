-- ===== src/Tcp/Table/Ended.antt =====
-- What the end of an operation, and a request to disconnect, change in the table of connections.
use windows_verifyserver.Prelude.{
  ℕ, zero, suc, ◌≡◌, refl, sym, ap, ◌∙◌, List, [], ◌∷◌, Bool, true, false, ◌||◌, ◌==◌,
  if◌then◌else◌, Option-cases, Bool-cases, inl, inr, arith,
}
use windows_verifyserver.Prelude.Results.{ok, ok-injective}
use windows_verifyserver.Tcp.Platform.{Platform}
use windows_verifyserver.Tcp.Receive.{Delivery}
use windows_verifyserver.Tcp.Connections.{
  release_context, Server, Io, Operation, idle, accepting, reading, writing, add_free_io_context,
  add_free_socket_context, find,
}
use windows_verifyserver.Tcp.Posting.{process_accept, process_send, process_receive, next_conn_id}
use windows_verifyserver.Tcp.Ownership.{SocketsOwned}
use windows_verifyserver.Tcp.Worker.{
  Answers, on_disconnect, on_error, dispatch, serve_ended, is_accept, io_pending, not_a_socket,
  aborted,
}
use windows_verifyserver.Tcp.Table.{closes, table, done_changes, failed_changes}
use windows_verifyserver.Tcp.Table.Passes.{
  Follows, add_free_io-Same, closed-Follows, process_accept-Follows, process_receive-Follows,
}
use windows_verifyserver.Tcp.Table.Entry.{Same-table, add_free_socket_context-table}

on_error-Follows :
    (s : Server) (io : ℕ) (c : Io) (id error : ℕ)
    → (error == io_pending) ≡ false
    → Follows s (on_error s io c id error) (failed_changes c id error)
unfolding on_error add_free_io_context
on_error-Follows s io c id error n = elim (Bool-cases (is_accept c.so)) [
  | inl t ↦ rw (t) (λ other. refl)
  | inr f ↦ elim (Bool-cases (error == not_a_socket || error == aborted)) [
    | inl t ↦ rw (f, n, t) (λ other. refl)
    | inr g ↦ rw (f, n, g) (closed-Follows s id io)
  ]
]

accepted-Follows :
    (p : Platform) (receiver : Bool) (a : Answers) (s t : Server) (io : ℕ) (c : Io) (id : ℕ)
    (bytes : List ℕ) (out : List Delivery)
    → c.so ≡ accepting
    → SocketsOwned [] s
    → dispatch p receiver a s io c id bytes ≡ ok (t, out)
    → Follows s t (done_changes a (next_conn_id s.last_conn_id) c id bytes)
unfolding dispatch
accepted-Follows p receiver a s t io c id bytes out k o e =
    let g : ok ((process_accept a.attached a.started s io c.sock_accept a.peer).0, [])
        ≡ ok (t, out) =
      sym (simp (dispatch, k) refl) ∙ e in
    let m : (process_accept a.attached a.started s io c.sock_accept a.peer).0 ≡ t =
      ap (λ x. x.0) (ok-injective _ _ g) in
    simp (sym m, done_changes, k)
      (process_accept-Follows a.attached a.started s io c.sock_accept a.peer o)

dispatch-Follows :
    (p : Platform) (receiver : Bool) (a : Answers) (s t : Server) (io : ℕ) (c : Io) (so : Operation)
    (id x : ℕ) (bytes : List ℕ) (out : List Delivery)
    → c.so ≡ so
    → SocketsOwned [] s
    → dispatch p receiver a s io c id (x ∷ bytes) ≡ ok (t, out)
    → Follows s t (done_changes a (next_conn_id s.last_conn_id) c id (x ∷ bytes))
unfolding dispatch
dispatch-Follows p receiver a s t io c accepting id x bytes out k o e =
    accepted-Follows p receiver a s t io c id (x ∷ bytes) out k o e
dispatch-Follows p receiver a s t io c reading id x bytes out k o e =
    let g : process_receive p receiver a.started s id io (x ∷ bytes) ≡ ok (t, out) =
      sym (simp (dispatch, k) refl) ∙ e in
    simp (done_changes, k)
      (process_receive-Follows p receiver a.started s t id io (x ∷ bytes) out g)
dispatch-Follows p receiver a s t io c writing id x bytes out k o e =
    let g : ok (process_send s io, []) ≡ ok (t, out) = sym (simp (dispatch, k) refl) ∙ e in
    let m : process_send s io ≡ t = ap (λ x. x.0) (ok-injective _ _ g) in
    simp (sym m, done_changes, k) (Same-table s (process_send s io) (add_free_io-Same s io))
dispatch-Follows p receiver a s t io c idle id x bytes out k o e =
    let g : ok (s, []) ≡ ok (t, out) = sym (simp (dispatch, k) refl) ∙ e in
    let m : s ≡ t = ap (λ x. x.0) (ok-injective _ _ g) in
    simp (sym m, done_changes, k) (λ other. refl)

-- An operation that ends without a byte, and is not an accept.
nothing-Follows :
    (p : Platform) (receiver : Bool) (a : Answers) (s t : Server) (io : ℕ) (c : Io) (id : ℕ)
    (out : List Delivery)
    → is_accept c.so ≡ false
    → serve_ended p receiver a s io c id [] 0 ≡ ok (t, out)
    → Follows s t (closes id ∷ [])
unfolding serve_ended
nothing-Follows p receiver a s t io c id out q e =
    let g : ok (add_free_io_context (add_free_socket_context s id) io, []) ≡ ok (t, out) =
      sym (rw (serve_ended, q) refl) ∙ e in
    let m : add_free_io_context (add_free_socket_context s id) io ≡ t =
      ap (λ x. x.0) (ok-injective _ _ g) in
    rw (sym m) (closed-Follows s id io)

pending-Follows :
    (s : Server) (c : Io) (id error : ℕ)
    → (error == io_pending) ≡ true
    → Follows s s (failed_changes c id error)
pending-Follows s c id error y = elim (Bool-cases (is_accept c.so)) [
  | inl a ↦ rw (failed_changes, a) (λ other. refl)
  | inr n ↦ rw (failed_changes, n, y) (λ other. refl)
]

on_disconnect_lem : (s : Server) (id : ℕ) → on_disconnect s id ≡ add_free_socket_context s id
unfolding release_context
on_disconnect_lem s id = elim (Option-cases (find s.clients id)) [
  | inl e ↦ rw (on_disconnect, add_free_socket_context, e) refl
  | inr (c, e) ↦ rw (on_disconnect, e) refl
]

-- A completion that reports no error.
good-Follows :
    (p : Platform) (receiver : Bool) (a : Answers) (s t : Server) (io : ℕ) (c : Io) (so : Operation)
    (id : ℕ) (bytes : List ℕ) (out : List Delivery)
    → c.so ≡ so
    → SocketsOwned [] s
    → serve_ended p receiver a s io c id bytes 0 ≡ ok (t, out)
    → Follows s t (done_changes a (next_conn_id s.last_conn_id) c id bytes)
unfolding serve_ended
good-Follows p receiver a s t io c so id (x ∷ bytes) out k o e =
    dispatch-Follows p receiver a s t io c so id x bytes out k o e
good-Follows p receiver a s t io c accepting id [] out k o e =
    let q : is_accept c.so ≡ true = ap is_accept k in
    accepted-Follows p receiver a s t io c id [] out k o (sym (rw (serve_ended, q) refl) ∙ e)
good-Follows p receiver a s t io c reading id [] out k o e =
    simp (done_changes, k) (nothing-Follows p receiver a s t io c id out (ap is_accept k) e)
good-Follows p receiver a s t io c writing id [] out k o e =
    simp (done_changes, k) (nothing-Follows p receiver a s t io c id out (ap is_accept k) e)
good-Follows p receiver a s t io c idle id [] out k o e =
    simp (done_changes, k) (nothing-Follows p receiver a s t io c id out (ap is_accept k) e)

pub served-Follows :
    (p : Platform) (receiver : Bool) (a : Answers) (s t : Server) (io : ℕ) (c : Io) (id : ℕ)
    (bytes : List ℕ) (error : ℕ) (out : List Delivery)
    → SocketsOwned [] s
    → serve_ended p receiver a s io c id bytes error ≡ ok (t, out)
    → Follows s t (
        if error == 0
        then done_changes a (next_conn_id s.last_conn_id) c id bytes
        else failed_changes c id error)
unfolding serve_ended
served-Follows p receiver a s t io c id bytes zero out o e =
    good-Follows p receiver a s t io c c.so id bytes out refl o e
served-Follows p receiver a s t io c id bytes (suc error) out o e =
    let z : (suc error == 0) ≡ false = ground arith in
    elim (Bool-cases (suc error == io_pending)) [
      | inl y ↦
          let g : ok (s, []) ≡ ok (t, out) = sym (rw (serve_ended, z, y) refl) ∙ e in
          let m : s ≡ t = ap (λ x. x.0) (ok-injective _ _ g) in
          rw (sym m, z) (pending-Follows s c id (suc error) y)
      | inr n ↦
          let g : ok (on_error s io c id (suc error), []) ≡ ok (t, out) =
            sym (rw (serve_ended, z, n) refl) ∙ e in
          let m : on_error s io c id (suc error) ≡ t = ap (λ x. x.0) (ok-injective _ _ g) in
          rw (sym m, z) (on_error-Follows s io c id (suc error) n)
    ]

pub on_disconnect-Follows : (s : Server) (id : ℕ) → Follows s (on_disconnect s id) (closes id ∷ [])
on_disconnect-Follows s id other =
    ap (λ t. table t other) (on_disconnect_lem s id) ∙ add_free_socket_context-table s id other
