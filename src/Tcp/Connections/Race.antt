-- ===== src/Tcp/Connections/Race.antt =====
-- Two threads in AddFreeSocketContext for the same connection.
use windows_verifyserver.Prelude.{
  ℕ, ◌+◌, ◌≤◌, ◌≡◌, refl, ap, ◌∙◌, List, [], ◌∷◌, ◌++◌, append_assoc, some, false, ltb, length,
  length-append, get_elem?, arith,
}
use windows_verifyserver.Tcp.Connections.{
  Server, SocketContext, find, release_context, close_socket, give_back,
}

give_back_short :
    (hold pool : ℕ) (free : List ℕ) (x : ℕ)
    → length free + 1 ≤ hold
    → give_back hold pool free x ≡ free ++ x ∷ []
give_back_short hold pool free x h =
    let f : ltb hold (length (free ++ x ∷ [])) ≡ false =
      ground (arith, h, length-append free (x ∷ [])) in
    rw (give_back, f) refl

release_context-fields :
    (s : Server) (id context : ℕ) (c : SocketContext)
    → get_elem? s.contexts context ≡ some c
    → length s.free_sockets + 1 ≤ 450
    → let t = release_context s id context in
      (t.free_sockets ≡ s.free_sockets ++ context ∷ [])
      × (t.closed ≡ s.closed ++ c.sock ∷ [])
      × (t.contexts ≡ s.contexts)
unfolding release_context
release_context-fields s id context c e h =
    let g = give_back_short 450 150 s.free_sockets context h in
    let q : close_socket s context ≡ record s { closed = s.closed ++ c.sock ∷ [] } =
      rw (close_socket, e) refl in
    (
      ap (λ u. give_back 450 150 u.free_sockets context) q ∙ g,
      ap (λ u. u.closed) q,
      ap (λ u. u.contexts) q,
    )

-- AddFreeSocketContext looks for the context under the lock of the map, and goes on without it. Where
-- two threads have both found the context of a connection before either has gone on, and at most 448
-- contexts are free, the context is on the free list twice when both are through, and its socket has
-- been closed twice.
pub release_context-twice :
    (s : Server) (id context : ℕ) (c : SocketContext)
    → find s.clients id ≡ some context
    → get_elem? s.contexts context ≡ some c
    → length s.free_sockets + 2 ≤ 450
    → let t = release_context (release_context s id context) id context in
      (t.free_sockets ≡ s.free_sockets ++ context ∷ context ∷ [])
      × (t.closed ≡ s.closed ++ c.sock ∷ c.sock ∷ [])
release_context-twice s id context c f e h =
    let t = release_context s id context in
    let (a, b, k) = release_context-fields s id context c e (omega (arith, h)) in
    let n : length t.free_sockets + 1 ≤ 450 =
      omega (arith, h, ap length a, length-append s.free_sockets (context ∷ [])) in
    let (a', b', k') =
      release_context-fields t id context c (ap (λ xs. get_elem? xs context) k ∙ e) n in
    (
      a'
          ∙ ap (λ xs. xs ++ context ∷ []) a
          ∙ append_assoc s.free_sockets (context ∷ []) (context ∷ []),
      b' ∙ ap (λ xs. xs ++ c.sock ∷ []) b ∙ append_assoc s.closed (c.sock ∷ []) (c.sock ∷ []),
    )
