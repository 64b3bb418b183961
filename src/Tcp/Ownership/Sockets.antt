-- ===== src/Tcp/Ownership/Sockets.antt =====
-- The places of the SOCKET_CONTEXTs.
use windows_verifyserver.Prelude.{
  ℕ, ◌+◌, ◌≤◌, ◌≡◌, refl, ◌∙◌, List, [], ◌∷◌, ◌++◌, none, some, length, get_elem?, set, length-set,
  length-append, Option-cases, inl, inr, arith,
}
use windows_verifyserver.Prelude.Counts.{count, same}
use windows_verifyserver.Tcp.Connections.{
  release_context, Server, SocketContext, find, erase, close_socket, add_client_socket,
  add_free_socket_context, get_free_socket_context, free_socket_hold, free_socket_pool, accept,
}
use windows_verifyserver.Tcp.Posting.{set_addr, enter_client, next_conn_id}
use windows_verifyserver.Tcp.Ownership.{IosOwned, SocketsOwned, contexts_of}
use windows_verifyserver.Tcp.Ownership.Ios.{count-give_back, slot_push}

count-erase :
    (i : ℕ) (clients : List (ℕ × ℕ)) (id : ℕ)
    → count i (contexts_of (erase clients id)) ≤ count i (contexts_of clients)
unfolding count
count-erase i [] id = omega arith
count-erase i ((key, c) ∷ clients) id = ground (arith, count-erase i clients id)

-- The entry that `erase` removes is counted no more.
count-erase_found :
    (i : ℕ) (clients : List (ℕ × ℕ)) (id c : ℕ)
    → find clients id ≡ some c
    → same i c + count i (contexts_of (erase clients id)) ≤ count i (contexts_of clients)
unfolding count
count-erase_found i [] id c h = absurd (ground arith)
count-erase_found i ((key, x) ∷ clients) id c h =
    ground (arith, count-erase i clients id, count-erase_found i clients id c)

-- Closing a socket changes nothing but the list of closed ones.
pub close_socket-fields :
    (s : Server) (c : ℕ) → (x : List ℕ) × (close_socket s c ≡ record s { closed = x })
close_socket-fields s c = elim (Option-cases (get_elem? s.contexts c)) [
  | inl e ↦ (s.closed, rw (close_socket, e) refl)
  | inr (x, e) ↦ (s.closed ++ x.sock ∷ [], rw (close_socket, e) refl)
]

pub add_free-SocketsOwned :
    (held : List ℕ) (s : Server) (id : ℕ)
    → SocketsOwned held s
    → SocketsOwned held (add_free_socket_context s id)
unfolding release_context
add_free-SocketsOwned held s id o i = elim (Option-cases (find s.clients id)) [
  | inl e ↦ rw (add_free_socket_context, e) (o i)
  | inr (c, e) ↦
      rw (add_free_socket_context, e, (close_socket-fields s c).1)
        (omega (
          arith,
          o i,
          count-erase_found i s.clients id c e,
          count-give_back i free_socket_hold free_socket_pool s.free_sockets c (omega arith),
        ))
]

pub add_free_socket-IosOwned :
    (held : List ℕ) (s : Server) (id : ℕ)
    → IosOwned held s
    → IosOwned held (add_free_socket_context s id)
unfolding release_context
add_free_socket-IosOwned held s id o i = elim (Option-cases (find s.clients id)) [
  | inl e ↦ rw (add_free_socket_context, e) (o i)
  | inr (c, e) ↦ rw (add_free_socket_context, e, (close_socket-fields s c).1) (o i)
]

-- What GetFreeSocketContext does to the heap when it reuses a context.
abbrev reuse : List SocketContext → ℕ → ℕ → ℕ → List SocketContext
reuse cs x id sock = elim (get_elem? cs x) [
  | none ↦ cs
  | some c ↦ set cs x (record c { conn_id = id; sock = sock })
]

length-reuse : (cs : List SocketContext) (x id sock : ℕ) → length (reuse cs x id sock) ≡ length cs
length-reuse cs x id sock = elim (Option-cases (get_elem? cs x)) [
  | inl e ↦ rw (reuse, e) refl
  | inr (c, e) ↦ rw (reuse, e) (length-set cs x (record c { conn_id = id; sock = sock }))
]

taken_with :
    (held : List ℕ) (s : Server) (id sock : ℕ) (free : List ℕ)
    → s.free_sockets ≡ free
    → SocketsOwned held s
    → SocketsOwned
        ((get_free_socket_context s id sock).1 ∷ held)
        (get_free_socket_context s id sock).0
unfolding get_free_socket_context count
taken_with held s id sock [] e o i =
    simp (get_free_socket_context, e, length-append)
      (omega (arith, o i, slot_push (length s.contexts) i))
taken_with held s id sock (x ∷ free) e o i =
    simp (get_free_socket_context, e)
      (let q : count i s.free_sockets ≡ same i x + count i free = rw e in
        rw (length-reuse s.contexts x id sock) (omega (arith, o i, q)))

pub get_free-SocketsOwned :
    (held : List ℕ) (s : Server) (id sock : ℕ)
    → SocketsOwned held s
    → SocketsOwned
        ((get_free_socket_context s id sock).1 ∷ held)
        (get_free_socket_context s id sock).0
get_free-SocketsOwned held s id sock = taken_with held s id sock s.free_sockets refl

taken-ios :
    (held : List ℕ) (s : Server) (id sock : ℕ) (free : List ℕ)
    → s.free_sockets ≡ free
    → IosOwned held s
    → IosOwned held (get_free_socket_context s id sock).0
unfolding get_free_socket_context
taken-ios held s id sock [] e o i = simp (get_free_socket_context, e) (o i)
taken-ios held s id sock (x ∷ free) e o i = simp (get_free_socket_context, e) (o i)

set_addr-Owned :
    (ss is : List ℕ) (s : Server) (x peer : ℕ)
    → SocketsOwned ss s
    → IosOwned is s
    → SocketsOwned ss (set_addr s x peer) × IosOwned is (set_addr s x peer)
set_addr-Owned ss is s x peer o q = elim (Option-cases (get_elem? s.contexts x)) [
  | inl e ↦ (λ i. rw (set_addr, e) (o i), λ i. rw (set_addr, e) (q i))
  | inr (c, e) ↦ (
    λ i. rw (set_addr, e, length-set s.contexts x (record c { addr = peer })) (o i),
    λ i. rw (set_addr, e) (q i),
  )
]

add_client-SocketsOwned :
    (held : List ℕ) (s : Server) (id x : ℕ)
    → SocketsOwned (x ∷ held) s
    → SocketsOwned held (add_client_socket s id x)
unfolding count
add_client-SocketsOwned held s id x o i = omega (arith, o i, count-erase i s.clients id)

-- A new connection takes a SOCKET_CONTEXT and enters it in the map.
pub enter_client-Owned :
    (ss is : List ℕ) (s : Server) (sock peer : ℕ)
    → SocketsOwned ss s
    → IosOwned is s
    → SocketsOwned ss (enter_client s sock peer).0 × IosOwned is (enter_client s sock peer).0
unfolding enter_client
enter_client-Owned ss is s sock peer o q =
    let id = next_conn_id s.last_conn_id in
    let s' : Server = record s { port = s.port ++ accept ∷ []; last_conn_id = id } in
    let got = get_free_socket_context s' id sock in
    let a =
      set_addr-Owned (got.1 ∷ ss) is got.0 got.1 peer (get_free-SocketsOwned ss s' id sock o)
        (taken-ios is s' id sock s'.free_sockets refl q) in
    (add_client-SocketsOwned ss (set_addr got.0 got.1 peer) id got.1 a.0, a.1)

pub add_free_socket-store :
    (s : Server) (id : ℕ) → (add_free_socket_context s id).io_store ≡ s.io_store
unfolding release_context
add_free_socket-store s id = elim (Option-cases (find s.clients id)) [
  | inl e ↦ rw (add_free_socket_context, e) refl
  | inr (c, e) ↦ rw (add_free_socket_context, e, (close_socket-fields s c).1) refl
]

taken-store :
    (s : Server) (id sock : ℕ) (free : List ℕ)
    → s.free_sockets ≡ free
    → (get_free_socket_context s id sock).0.io_store ≡ s.io_store
unfolding get_free_socket_context
taken-store s id sock [] e = simp (get_free_socket_context, e) refl
taken-store s id sock (x ∷ free) e = simp (get_free_socket_context, e) refl

set_addr-store : (s : Server) (x peer : ℕ) → (set_addr s x peer).io_store ≡ s.io_store
set_addr-store s x peer = elim (Option-cases (get_elem? s.contexts x)) [
  | inl e ↦ rw (set_addr, e) refl
  | inr (c, e) ↦ rw (set_addr, e) refl
]

pub enter_client-store :
    (s : Server) (sock peer : ℕ) → (enter_client s sock peer).0.io_store ≡ s.io_store
unfolding enter_client
enter_client-store s sock peer =
    let id = next_conn_id s.last_conn_id in
    let s' : Server = record s { port = s.port ++ accept ∷ []; last_conn_id = id } in
    let got = get_free_socket_context s' id sock in
    set_addr-store got.0 got.1 peer ∙ taken-store s' id sock s'.free_sockets refl
