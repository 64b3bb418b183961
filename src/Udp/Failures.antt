-- ===== src/Udp/Failures.antt =====
-- What a CUDPSocket does after a failure, and when it is stopped twice.
use windows_verifyserver.Prelude.{
  ℕ, ◌≡◌, ◌≢◌, refl, sym, ap₂, ◌∙◌, List, [], ◌∷◌, ◌++◌, Bool, true, false, ◌&&◌, ◌==◌, ne→==,
  eq→==, Bool-cases, inl, inr, append_assoc,
}
use windows_verifyserver.Udp.{
  UdpSocket, Answers, no_socket, init_broadcast_socket, start, stop, Reach,
}
use windows_verifyserver.Udp.Life.{IsShort, wait-ends, stop-IsShort, Reach-IsShort}

init_broadcast_socket-made :
    (a : Answers) (s : UdpSocket)
    → s.sock_server ≡ 0
    → (init_broadcast_socket a s).0.sock_server ≡ a.made
unfolding init_broadcast_socket
init_broadcast_socket-made a s z = elim (Bool-cases (a.made == no_socket)) [
  | inl n ↦ rw (init_broadcast_socket, eq→== s.sock_server 0 z, n) refl
  | inr n ↦ elim (Bool-cases (a.broadcast && a.timeout)) [
    | inl y ↦ rw (init_broadcast_socket, eq→== s.sock_server 0 z, n, y) refl
    | inr y ↦ rw (init_broadcast_socket, eq→== s.sock_server 0 z, n, y) refl
  ]
]

init_broadcast_socket-kept :
    (a : Answers) (s : UdpSocket) → s.sock_server ≢ 0 → init_broadcast_socket a s ≡ (s, true)
unfolding init_broadcast_socket
init_broadcast_socket-kept a s n = rw (init_broadcast_socket, ne→== s.sock_server 0 n) refl

-- Where Windows makes no socket, or makes one whose options cannot be set, Start says that it failed,
-- but keeps the number that it was given: from then on _InitBroadcastSocket makes no socket any more
-- and says that all is well, whatever Windows would answer.
pub start-failed :
    (a b : Answers) (s : UdpSocket) (bytes : List ℕ)
    → s.sock_server ≡ 0
    → a.made ≢ 0
    → (init_broadcast_socket a s).1 ≡ false
    → ((start a s bytes).1 ≡ false)
      × (init_broadcast_socket b (start a s bytes).0 ≡ ((start a s bytes).0, true))
unfolding start
start-failed a b s bytes z m e =
    let t = (init_broadcast_socket a s).0 in
    let failed : start a s bytes ≡ (t, false) = rw (start, e) refl in
    rw failed
      (refl, init_broadcast_socket-kept b t (λ n. m (sym (init_broadcast_socket-made a s z) ∙ n)))

stop-closed :
    (s : UdpSocket) (bytes : List ℕ)
    → IsShort s
    → ((stop s bytes).closed ≡ s.closed ++ s.sock_server ∷ [])
      × ((stop s bytes).sock_server ≡ s.sock_server)
unfolding stop
stop-closed s bytes v =
    let w = wait-ends s bytes v in (ap₂ (λ xs x. xs ++ x ∷ []) w.closed w.sock, w.sock)

-- Stop does not forget the socket: when the destructor calls it again, the same number is closed a
-- second time.
pub stop-twice :
    (receiver : Bool) (s : UdpSocket) (bytes later : List ℕ)
    → Reach receiver s
    → (stop (stop s bytes) later).closed ≡ s.closed ++ (s.sock_server ∷ s.sock_server ∷ [])
stop-twice receiver s bytes later r =
    let v = Reach-IsShort receiver s r in
    let (c, k) = stop-closed s bytes v in
    let (d, _) = stop-closed (stop s bytes) later (stop-IsShort s bytes v) in
    d
    ∙ ap₂ (λ xs x. xs ++ x ∷ []) c k
    ∙ append_assoc s.closed (s.sock_server ∷ []) (s.sock_server ∷ [])
