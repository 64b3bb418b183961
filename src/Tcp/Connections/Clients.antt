-- ===== src/Tcp/Connections/Clients.antt =====
-- The map of clients after a connection is accepted or closed.
use windows_verifyserver.Prelude.{
  ℕ, ◌≡◌, ◌≢◌, refl, sym, ap, ◌∙◌, List, [], ◌∷◌, ◌++◌, none, some, true, ◌==◌, ==_iff, eq→==,
  ne→==, inl, inr, Bool-cases, Option-cases, if◌then◌else◌, get_elem?,
}
use mathlib.Core.Bool.{true≢false}
use windows_verifyserver.Tcp.Connections.{
  release_context, Server, accept, find, erase, get_free_socket_context, close_socket,
  add_free_socket_context,
}
use windows_verifyserver.Tcp.Posting.{next_conn_id, set_addr, enter_client}

same_key : (a b : ℕ) → (a == b) ≡ true → a ≡ b
same_key a b = (==_iff a b).0

absent :
    (clients : List (ℕ × ℕ)) (id other : ℕ)
    → find clients id ≡ none
    → find clients other ≡ (if id == other then none else find clients other)
absent clients id other e = elim (Bool-cases (id == other)) [
  | inl t ↦ rw (t, sym (same_key id other t)) e
  | inr f ↦ rw f refl
]

pub find-erase_self : (clients : List (ℕ × ℕ)) (id : ℕ) → find (erase clients id) id ≡ none
find-erase_self [] id = refl
find-erase_self ((key, c) ∷ clients) id = elim (Bool-cases (key == id)) [
  | inl t ↦ rw t (find-erase_self clients id)
  | inr f ↦ rw (f, f) (find-erase_self clients id)
]

pub find-erase_ne :
    (clients : List (ℕ × ℕ)) (id other : ℕ)
    → id ≢ other
    → find (erase clients id) other ≡ find clients other
find-erase_ne [] id other h = refl
find-erase_ne ((key, c) ∷ clients) id other h = elim (Bool-cases (key == id)) [
  | inl t ↦
      rw (t, ne→== key other (λ e. h (sym (same_key key id t) ∙ e)))
        (find-erase_ne clients id other h)
  | inr f ↦ rw f (ap (λ o. if key == other then some c else o) (find-erase_ne clients id other h))
]

close_socket-clients : (s : Server) (c : ℕ) → (close_socket s c).clients ≡ s.clients
close_socket-clients s c = elim (Option-cases (get_elem? s.contexts c)) [
  | inl e ↦ rw (close_socket, e) refl
  | inr (x, e) ↦ rw (close_socket, e) refl
]

set_addr-clients : (s : Server) (c peer : ℕ) → (set_addr s c peer).clients ≡ s.clients
set_addr-clients s c peer = elim (Option-cases (get_elem? s.contexts c)) [
  | inl e ↦ rw (set_addr, e) refl
  | inr (x, e) ↦ rw (set_addr, e) refl
]

erased :
    (clients : List (ℕ × ℕ)) (id other : ℕ)
    → find (erase clients id) other ≡ (if id == other then none else find clients other)
erased clients id other = elim (Bool-cases (id == other)) [
  | inl t ↦ rw (t, sym (same_key id other t)) (find-erase_self clients id)
  | inr f ↦ rw f (find-erase_ne clients id other (λ e. true≢false (sym (eq→== id other e) ∙ f)))
]

added :
    (clients : List (ℕ × ℕ)) (id c other : ℕ)
    → find ((id, c) ∷ erase clients id) other ≡ (if id == other then some c else find clients other)
added clients id c other = elim (Bool-cases (id == other)) [
  | inl t ↦ rw t refl
  | inr f ↦ rw f (find-erase_ne clients id other (λ e. true≢false (sym (eq→== id other e) ∙ f)))
]

-- AddFreeSocketContext takes the connection out of the map of clients and leaves all others in it.
pub add_free_socket_context-find :
    (s : Server) (id other : ℕ)
    → find (add_free_socket_context s id).clients other
      ≡ (if id == other then none else find s.clients other)
unfolding release_context
add_free_socket_context-find s id other = elim (Option-cases (find s.clients id)) [
  | inl e ↦ rw (add_free_socket_context, e) (absent s.clients id other e)
  | inr (c, e) ↦
      rw (add_free_socket_context, e, close_socket-clients s c) (erased s.clients id other)
]

pub taken-clients :
    (s : Server) (id sock : ℕ) (free : List ℕ)
    → s.free_sockets ≡ free
    → (get_free_socket_context s id sock).0.clients ≡ s.clients
unfolding get_free_socket_context
taken-clients s id sock [] e = rw (get_free_socket_context, e) refl
taken-clients s id sock (x ∷ free) e = rw (get_free_socket_context, e) refl

pub enter_client-find :
    (s : Server) (sock peer other : ℕ)
    → find (enter_client s sock peer).0.clients other ≡ (
        if next_conn_id s.last_conn_id == other
        then some (enter_client s sock peer).1
        else find s.clients other)
unfolding enter_client
enter_client-find s sock peer other =
    let conn_id = next_conn_id s.last_conn_id in
    let s' : Server = record s { port = s.port ++ accept ∷ []; last_conn_id = conn_id } in
    let got = get_free_socket_context s' conn_id sock in
    rw (set_addr-clients got.0 got.1 peer, taken-clients s' conn_id sock s'.free_sockets refl)
      (added s.clients conn_id got.1 other)
