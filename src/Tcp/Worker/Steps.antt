-- ===== src/Tcp/Worker/Steps.antt =====
-- Every pass of a worker thread keeps what holds of the contexts.
use windows_verifyserver.Prelude.{
  ℕ, ◌+◌, ◌≤◌, ◌<◌, ◌^◌, ◌≡◌, refl, List, [], ◌∷◌, ◌++◌, some, Bool, true, false, ◌||◌, ◌==◌,
  if◌then◌else◌, length, get_elem?, Bool-cases, inl, inr, arith,
}
use windows_verifyserver.Prelude.Counts.{count}
use windows_verifyserver.Prelude.Results.{Result, ok, err, bad_alloc}
use windows_verifyserver.Tcp.Platform.{Platform, IsSound}
use windows_verifyserver.Tcp.Receive.{Assembly, Delivery, receive}
use windows_verifyserver.Tcp.Receive.States.{State, waiting, filling, stuck}
use windows_verifyserver.Tcp.Receive.Safety.{IsSafe, saved, save_data-IsSafe}
use windows_verifyserver.Tcp.Connections.{
  Server, Io, Operation, idle, accepting, reading, writing, accept, add_free_io_context,
  get_free_io_context, add_free_socket_context, max_buffer,
}
use windows_verifyserver.Tcp.Posting.{
  post_accept, post_receive, start_receive, enter_client, process_accept, process_send,
  next_receive, process_receive, set_io, next_conn_id,
}
use windows_verifyserver.Tcp.Worker.{
  Answers, accept_next, on_error, dispatch, is_accept, not_a_socket, aborted,
}
use windows_verifyserver.Tcp.Worker.Holds.{
  Holds, AllReady-get, set_io-Holds, add_free_io-Holds, get_free_io-Holds, add_free_socket-Holds,
  post_accept-Holds, post_receive-Holds, enter_client-Holds,
}

-- What comes of an operation: a state in which the contexts are in order, or the exception of `new`.
pub data Outcome (r : Result (Server × List Delivery)) : Type 0 where
  done : (s : Server) (out : List Delivery) → Holds [] s → r ≡ ok (s, out) → Outcome r
  no_memory : r ≡ err bad_alloc → Outcome r

-- The code lets go of what it holds.
pub let_go : (s : Server) (io : ℕ) → Holds (io ∷ []) s → Holds [] s
unfolding count
let_go s io v = record { ios = λ i. omega (arith, v.ios i); sockets = v.sockets; ready = v.ready }

accepted-Holds :
    (started : Bool) (created : ℕ) (s : Server) (io : ℕ)
    → Holds (io ∷ []) s
    → Holds [] (
        let r = post_accept started s io created in
        if r.1
        then r.0
        else add_free_io_context (record r.0 { closed = r.0.closed ++ created ∷ [] }) io)
unfolding post_accept
accepted-Holds true created s io v = post_accept-Holds true [] s io created v
accepted-Holds false created s io v =
    let r = (post_accept false s io created).0 in
    let w = post_accept-Holds false [] s io created v in
    add_free_io-Holds [] (record r { closed = r.closed ++ created ∷ [] }) io
      (record { ios = w.ios; sockets = w.sockets; ready = w.ready })

pub accept_next-Holds : (a : Answers) (s : Server) → Holds [] s → Holds [] (accept_next a s)
unfolding accept_next
accept_next-Holds a s v =
    let got = get_free_io_context s in
    accepted-Holds a.started a.created got.0 got.1 (get_free_io-Holds [] s v)

start_receive-Holds :
    (attached started : Bool) (s : Server) (conn_id io : ℕ)
    → Holds (io ∷ []) s
    → Holds [] (start_receive attached started s conn_id io).0
unfolding start_receive post_receive
start_receive-Holds false started s conn_id io v =
    add_free_io-Holds [] (add_free_socket_context s conn_id) io
      (add_free_socket-Holds (io ∷ []) s conn_id v)
start_receive-Holds true true s conn_id io v = post_receive-Holds true [] s io v
start_receive-Holds true false s conn_id io v =
    add_free_io-Holds [] (post_receive false s io).0 io (post_receive-Holds false [] s io v)

next_receive-Holds :
    (started : Bool) (s : Server) (conn_id io : ℕ)
    → Holds (io ∷ []) s
    → Holds [] (next_receive started s conn_id io)
unfolding next_receive post_receive
next_receive-Holds true s conn_id io v = post_receive-Holds true [] s io v
next_receive-Holds false s conn_id io v =
    let s' = (post_receive false s io).0 in
    add_free_io-Holds [] (add_free_socket_context s' conn_id) io
      (add_free_socket-Holds (io ∷ []) s' conn_id (post_receive-Holds false [] s io v))

-- The bytes of a read are few, and so are those that were stored before.
named-State : (conn_id : ℕ) (a : Assembly) → State a → State (record a { conn_id = conn_id })
named-State conn_id a (waiting head w) = waiting head (record {
  idle = w.idle;
  small = w.small;
  stored = w.stored;
  head_len = w.head_len;
  short = w.short;
})
named-State conn_id a (filling written rest f) = filling written rest (record {
  block = f.block;
  received = f.received;
  total = f.total;
  more = f.more;
  framed = f.framed;
  small = f.small;
  no_head = f.no_head;
})
named-State conn_id a (stuck k) =
    stuck
      (record { negative = k.negative; word = k.word; nothing = k.nothing; no_head = k.no_head })

small_head : (a : Assembly) (n : ℕ) → State a → n ≤ max_buffer → n + a.tmp_head_buf.len < 2 ^ 31
small_head a n (waiting head w) h = omega (arith, w.head_len, w.short)
small_head a n (filling written rest f) h = omega (arith, f.no_head)
small_head a n (stuck k) h = omega (arith, k.no_head)

module _ (p : Platform) (sound : IsSound p) (receiver : Bool) where
  process_receive-Outcome :
      (started : Bool) (s : Server) (conn_id io : ℕ) (bytes : List ℕ) (c : Io)
      → Holds (io ∷ []) s
      → get_elem? s.io_store io ≡ some c
      → length bytes ≤ max_buffer
      → Outcome (process_receive p receiver started s conn_id io bytes)
  unfolding process_receive receive
  process_receive-Outcome started s conn_id io bytes c v e h =
      let a : Assembly = record c.assembly { conn_id = conn_id } in
      let st = named-State conn_id c.assembly (AllReady-get s.io_store io c v.ready e).0 in
      elim (save_data-IsSafe p sound receiver a bytes st (small_head a (length bytes) st h)) [
        | saved a' out st' f ↦
            done
              (next_receive started
                (set_io s io (λ c'. record c' { assembly = a'; len = length bytes })) conn_id io)
              out
              (next_receive-Holds started _ conn_id io
                (set_io-Holds (io ∷ []) s io _ (λ c' q. (st', q.1)) v))
              (rw (process_receive, e, receive, f) refl)
        | IsSafe.no_memory f ↦ no_memory (rw (process_receive, e, receive, f) refl)
      ]

  pub dispatch-Outcome :
      (a : Answers) (s : Server) (io : ℕ) (c : Io) (so : Operation) (conn_id : ℕ) (bytes : List ℕ)
      → c.so ≡ so
      → Holds (io ∷ []) s
      → get_elem? s.io_store io ≡ some c
      → length bytes ≤ max_buffer
      → Outcome (dispatch p receiver a s io c conn_id bytes)
  unfolding dispatch process_accept
  dispatch-Outcome a s io c accepting conn_id bytes k v e h =
      let s' = (enter_client s c.sock_accept a.peer).0 in
      let id = next_conn_id s.last_conn_id in
      done (start_receive a.attached a.started s' id io).0 []
        (start_receive-Holds a.attached a.started s' id io
          (enter_client-Holds (io ∷ []) s c.sock_accept a.peer v))
        (simp (dispatch, k) refl)
  dispatch-Outcome a s io c reading conn_id bytes k v e h =
      simp (dispatch, k) (process_receive-Outcome a.started s conn_id io bytes c v e h)
  dispatch-Outcome a s io c writing conn_id bytes k v e h =
      done (process_send s io) [] (add_free_io-Holds [] s io v) (simp (dispatch, k) refl)
  dispatch-Outcome a s io c idle conn_id bytes k v e h =
      done s [] (let_go s io v) (simp (dispatch, k) refl)

  pub on_error-Holds :
      (s : Server) (io : ℕ) (c : Io) (conn_id error : ℕ)
      → Holds (io ∷ []) s
      → Holds [] (on_error s io c conn_id error)
  unfolding on_error
  on_error-Holds s io c conn_id error v = elim (Bool-cases (is_accept c.so)) [
    | inl t ↦ rw t (
        add_free_io-Holds []
          (record s { closed = s.closed ++ c.sock_accept ∷ []; port = s.port ++ accept ∷ [] }) io
          (record { ios = v.ios; sockets = v.sockets; ready = v.ready }))
    | inr f ↦ elim (Bool-cases (error == not_a_socket || error == aborted)) [
      | inl t ↦ rw (f, t) (add_free_io-Holds [] s io v)
      | inr g ↦ rw (f, g) (add_free_io-Holds [] _ io (add_free_socket-Holds (io ∷ []) s conn_id v))
    ]
  ]
