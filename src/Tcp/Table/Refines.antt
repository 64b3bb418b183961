-- ===== src/Tcp/Table/Refines.antt =====
-- A worker thread changes the table of connections as the specification says.
use windows_verifyserver.Prelude.{
  ℕ, ◌≡◌, refl, sym, ap, ◌∙◌, List, [], ◌∷◌, ◌++◌, Option, none, some, Bool, false, ◌&&◌, ◌==◌, ltb,
  get_elem?, Option-cases, Bool-cases, inl, inr, arith,
}
use windows_verifyserver.Prelude.Counts.{count, erase_first}
use windows_verifyserver.Prelude.Results.{
  Result, Fault, ok, err, or_fault, null_pointer, use_after_free, ok-injective, bind-ok,
}
use windows_verifyserver.Tcp.Platform.{Platform}
use windows_verifyserver.Tcp.Receive.{Delivery}
use windows_verifyserver.Tcp.Connections.{
  Server, Io, accepting, add_free_io_context, get_free_io_context,
}
use windows_verifyserver.Tcp.Posting.{set_io, post_accept}
use windows_verifyserver.Tcp.Ownership.{SocketsOwned}
use windows_verifyserver.Tcp.Worker.{
  Completion, posted, ended, Answers, Step, goes_on, exits, accept_next, on_disconnect, conn_of,
  on_ended, on_posted, worker_step, is_accept, si_accept, si_disconnect, si_exit,
}
use windows_verifyserver.Tcp.Table.{owner, changes}
use windows_verifyserver.Tcp.Table.Passes.{
  Follows, before-Follows, set_io-Same, add_free_io-Same, Same-trans,
}
use windows_verifyserver.Tcp.Table.Ended.{served-Follows, on_disconnect-Follows}
use windows_verifyserver.Tcp.Table.Entry.{Same, Same-table}

conn_of-owner : (s : Server) (c : Io) (key id : ℕ) → conn_of s c key ≡ ok id → id ≡ owner s c key
unfolding conn_of
conn_of-owner s c key id e = elim (Bool-cases (is_accept c.so)) [
  | inl y ↦ rw (owner, y) (sym (ok-injective 0 id (sym (rw (conn_of, y) refl) ∙ e)))
  | inr n ↦ elim (Bool-cases (ltb 0 (count key s.deleted))) [
    | inl d ↦ let g : err use_after_free ≡ ok id = sym (rw (conn_of, n, d) refl) ∙ e in absurd cc
    | inr d ↦ elim (Option-cases (get_elem? s.contexts key)) [
      | inl k ↦ let g : err null_pointer ≡ ok id = sym (rw (conn_of, n, d, k) refl) ∙ e in absurd cc
      | inr (x, k) ↦
          rw (owner, n, k) (sym (ok-injective x.conn_id id (sym (rw (conn_of, n, d, k) refl) ∙ e)))
    ]
  ]
]

get_free_io-Same : (s : Server) → Same s (get_free_io_context s).0
unfolding get_free_io_context
get_free_io-Same s = go s.free_ios refl
  where
    go : (free : List ℕ) → s.free_ios ≡ free → Same s (get_free_io_context s).0
    go [] e = rw (get_free_io_context, e) (record { clients = refl; contexts = refl })
    go (x ∷ free) e = rw (get_free_io_context, e) (record { clients = refl; contexts = refl })

accept_next-Same : (a : Answers) (s : Server) → Same s (accept_next a s)
unfolding accept_next post_accept
accept_next-Same a s =
    let got = get_free_io_context s in
    let f : Io → Io = λ c. record c { so = accepting; sock_accept = a.created } in
    let e =
      Same-trans s got.0 (set_io got.0 got.1 f) (get_free_io-Same s) (set_io-Same got.0 got.1 f) in
    elim (Bool-cases a.started) [
      | inl y ↦
          rw (accept_next, post_accept, y) (record { clients = e.clients; contexts = e.contexts })
      | inr n ↦
          let t : Server = record (set_io got.0 got.1 f) {
            closed = (set_io got.0 got.1 f).closed ++ a.created ∷ [];
          } in
          let g =
            Same-trans s t (add_free_io_context t got.1)
              (record { clients = e.clients; contexts = e.contexts }) (add_free_io-Same t got.1) in
          rw (accept_next, post_accept, n) g
    ]

or_fault-ok {ℓ} : {A : Type ℓ} (x : Option A) (a : A) (e : Fault) → or_fault x e ≡ ok a → x ≡ some a
or_fault-ok none a e h = absurd cc
or_fault-ok (some b) a e h = ap some (ok-injective b a h)

on_ended-Follows :
    (p : Platform) (receiver : Bool) (a : Answers) (s t : Server) (io key : ℕ) (bytes : List ℕ)
    (error : ℕ) (out : List Delivery)
    → SocketsOwned [] s
    → on_ended p receiver a s io key bytes error ≡ ok (t, out)
    → Follows s t (changes a s (ended io key bytes error))
unfolding on_ended
on_ended-Follows p receiver a s t io key bytes error out o e =
    let s' : Server = record s { in_flight = erase_first io s.in_flight } in
    let (c, q, g) = bind-ok (or_fault (get_elem? s.io_store io) null_pointer) _ (t, out) e in
    let (id, k, h) = bind-ok (conn_of s c key) _ (t, out) g in
    let k' = conn_of-owner s c key id k in
    let q' : get_elem? s.io_store io ≡ some c =
      or_fault-ok (get_elem? s.io_store io) c null_pointer q in
    before-Follows s s' t (changes a s (ended io key bytes error))
      (record { clients = refl; contexts = refl })
      (rw (changes, q', sym k') (served-Follows p receiver a s' t io c id bytes error out o h))

abbrev went_to : Server → Result Step → Server
went_to d (ok (goes_on s out)) = s
went_to d (ok (exits s)) = d
went_to d (err e) = d

on_posted-Follows :
    (a : Answers) (s t : Server) (bytes key : ℕ) (out : List Delivery)
    → on_posted a s bytes key ≡ ok (goes_on t out)
    → Follows s t (changes a s (posted bytes key))
unfolding on_posted
on_posted-Follows a s t bytes key out e = elim (Bool-cases (bytes == si_accept)) [
  | inl y ↦
      let d : (bytes == si_disconnect) ≡ false = ground arith in
      let g : ok (goes_on (accept_next a s) []) ≡ ok (goes_on t out) =
        sym (rw (on_posted, y) refl) ∙ e in
      let m : accept_next a s ≡ t = ap (went_to s) g in
      rw (changes, d, sym m) (Same-table s (accept_next a s) (accept_next-Same a s))
  | inr n ↦ elim (Bool-cases (bytes == si_disconnect)) [
    | inl y ↦
        let g : ok (goes_on (on_disconnect s key) []) ≡ ok (goes_on t out) =
          sym (rw (on_posted, n, y) refl) ∙ e in
        let m : on_disconnect s key ≡ t = ap (went_to s) g in
        rw (changes, y, sym m) (on_disconnect-Follows s key)
    | inr d ↦ elim (Bool-cases (bytes == si_exit && key == 0)) [
      | inl y ↦
          let g : ok (exits s) ≡ ok (goes_on t out) = sym (rw (on_posted, n, d, y) refl) ∙ e in
          absurd cc
      | inr x ↦
          let g : err null_pointer ≡ ok (goes_on t out) = sym (rw (on_posted, n, d, x) refl) ∙ e in
          absurd cc
    ]
  ]
]

-- A pass of a worker thread that goes on changes the table of connections as the completion says: an
-- accept opens the connection with the next number and closes it again where its socket cannot be
-- attached to the port; a read or a send that ends without a byte, a read that no read can follow, a
-- request to disconnect, and an error but for an accept, WSA_IO_PENDING, WSAENOTSOCK and
-- ERROR_OPERATION_ABORTED close the completion's connection; nothing else changes a connection.
-- It is for a server whose every SOCKET_CONTEXT is in one place at most.
pub worker_step-Follows :
    (p : Platform) (receiver : Bool) (a : Answers) (s t : Server) (c : Completion)
    (out : List Delivery)
    → SocketsOwned [] s
    → worker_step p receiver a s c ≡ ok (goes_on t out)
    → Follows s t (changes a s c)
unfolding worker_step on_posted
worker_step-Follows p receiver a s t (posted bytes key) out o e =
    on_posted-Follows a s t bytes key out e
worker_step-Follows p receiver a s t (ended io key bytes error) out o e =
    let (r, q, g) = bind-ok (on_ended p receiver a s io key bytes error) _ (goes_on t out) e in
    let m : r.0 ≡ t = ap (went_to s) g in
    rw (sym m) (on_ended-Follows p receiver a s r.0 io key bytes error r.1 o q)
