-- ===== src/Udp/Life.antt =====
-- What a CUDPSocket receives over its life.
use mathlib.Core.Bool.{true≢false}
use windows_verifyserver.Prelude.{
  ℕ, suc, ◌+◌, ◌≤◌, ◌≡◌, refl, sym, ap, ◌∙◌, List, [], ◌∷◌, Bool, true, false, ◌&&◌, ◌==◌,
  if◌then◌else◌, length, length-append, arith, Bool-cases, inl, inr,
}
use windows_verifyserver.Udp.{
  UdpSocket, Answers, no_socket, init_broadcast_socket, want_stop_thread, rev_pass, deliver, wait,
  start_recive, begin_thread, start, stop, Moves, starts, passes, stops, Reach, created, moved,
}

abbrev pub bit : Bool → ℕ
bit true = 1
bit false = 0

-- A thread that runs has been told to stop, and there has been at most one delivery for each thread
-- that was begun, with one to spare for a thread that runs.
pub record IsShort (s : UdpSocket) : Type 0 where
  pub told : s.running ≡ true → s.stop_rev_thread ≡ true
  pub few : length s.delivered + bit s.running ≤ s.begun
  pub held : s.running ≡ true → s.handle ≡ true

-- What a pass leaves alone.
record Kept (s t : UdpSocket) : Type 0 where
  one : length t.delivered ≤ suc (length s.delivered)
  running : t.running ≡ s.running
  begun : t.begun ≡ s.begun
  told : t.stop_rev_thread ≡ s.stop_rev_thread
  sock : t.sock_server ≡ s.sock_server
  closed : t.closed ≡ s.closed

deliver-Kept : (s : UdpSocket) (bytes : List ℕ) → Kept s (deliver s bytes)
deliver-Kept s [] = record {
  one = omega arith;
  running = refl;
  begun = refl;
  told = refl;
  sock = refl;
  closed = refl;
}
deliver-Kept s (x ∷ xs) = elim (Bool-cases s.receiver) [
  | inl e ↦ rw e (record {
    one = omega (arith, length-append s.delivered ((x ∷ xs) ∷ []));
    running = refl;
    begun = refl;
    told = refl;
    sock = refl;
    closed = refl;
  })
  | inr e ↦ rw e (record {
    one = omega arith;
    running = refl;
    begun = refl;
    told = refl;
    sock = refl;
    closed = refl;
  })
]

if_true {ℓ} : {A : Type ℓ} (b : Bool) (x y : A) → b ≡ true → (if b then x else y) ≡ x
if_true true x y e = refl
if_true false x y e = absurd (true≢false (sym e))

if_false {ℓ} : {A : Type ℓ} (b : Bool) (x y : A) → b ≡ false → (if b then x else y) ≡ y
if_false true x y e = absurd (true≢false e)
if_false false x y e = refl

both : (a b : Bool) → a ≡ true → b ≡ true → (a && b) ≡ true
both a b e f = rw (e, f) refl

not_both : (a b : Bool) → b ≡ false → (a && b) ≡ false
not_both true b f = f
not_both false b f = refl

abbrev ended : UdpSocket → UdpSocket
ended s = record s { running = false }

-- A thread that has been told to stop ends with its pass.
rev_pass-told :
    (s : UdpSocket) (bytes : List ℕ)
    → s.stop_rev_thread ≡ true
    → rev_pass s bytes ≡ ended (deliver s bytes)
unfolding rev_pass
rev_pass-told s bytes e = if_true s.stop_rev_thread (ended (deliver s bytes)) (deliver s bytes) e

-- The thread does not run.
ended-IsShort : (s : UdpSocket) → length s.delivered ≤ s.begun → IsShort (ended s)
ended-IsShort s h = record {
  told = λ z. absurd (true≢false (sym z));
  few = omega arith;
  held = λ z. absurd (true≢false (sym z));
}

-- No thread runs, and the next one would be told to stop from its start.
pub record HasEnded (s t : UdpSocket) : Type 0 where
  pub short : IsShort t
  pub running : t.running ≡ false
  pub told : t.stop_rev_thread ≡ true
  pub sock : t.sock_server ≡ s.sock_server
  pub closed : t.closed ≡ s.closed

rev_pass-ends :
    (s : UdpSocket) (bytes : List ℕ)
    → IsShort s
    → s.running ≡ true
    → s.stop_rev_thread ≡ true
    → HasEnded s (rev_pass s bytes)
rev_pass-ends s bytes v r e =
    let k = deliver-Kept s bytes in
    let h : length (deliver s bytes).delivered ≤ (deliver s bytes).begun =
      omega (arith, k.one, k.begun, v.few, ap bit r) in
    rw (rev_pass-told s bytes e) (record {
      short = ended-IsShort (deliver s bytes) h;
      running = refl;
      told = k.told ∙ e;
      sock = k.sock;
      closed = k.closed;
    })

told_to_stop : (s : UdpSocket) → IsShort s → IsShort (want_stop_thread s)
told_to_stop s v = record { told = λ z. refl; few = v.few; held = v.held }

pub wait-ends :
    (s : UdpSocket) (bytes : List ℕ)
    → IsShort s
    → HasEnded (want_stop_thread s) (wait (want_stop_thread s) bytes)
wait-ends s bytes v = elim (Bool-cases s.running) [
  | inl r ↦
      let t = want_stop_thread s in
      rw
        (if_true (s.handle && s.running) (rev_pass t bytes) t
          (both s.handle s.running (v.held r) r))
        (rev_pass-ends t bytes (told_to_stop s v) r refl)
  | inr r ↦
      let t = want_stop_thread s in
      rw (if_false (s.handle && s.running) (rev_pass t bytes) t (not_both s.handle s.running r))
        (record { short = told_to_stop s v; running = r; told = refl; sock = refl; closed = refl })
]

begin_thread-IsShort :
    (a : Answers) (s : UdpSocket)
    → IsShort s
    → s.running ≡ false
    → s.stop_rev_thread ≡ true
    → IsShort (begin_thread a s).0
begin_thread-IsShort a s v r e = elim (Bool-cases a.begins) [
  | inl b ↦ rw b (record { told = λ z. e; few = omega (arith, v.few, ap bit r); held = λ z. refl })
  | inr b ↦
      rw b (record { told = v.told; few = v.few; held = λ z. absurd (true≢false (sym z ∙ r)) })
]

init_broadcast_socket-IsShort :
    (a : Answers) (s : UdpSocket) → IsShort s → IsShort (init_broadcast_socket a s).0
unfolding init_broadcast_socket
init_broadcast_socket-IsShort a s v = elim (Bool-cases (s.sock_server == 0)) [
  | inr n ↦ rw (init_broadcast_socket, n) v
  | inl z ↦ elim (Bool-cases (a.made == no_socket)) [
    | inl n ↦
        rw (init_broadcast_socket, z, n) (record { told = v.told; few = v.few; held = v.held })
    | inr n ↦ elim (Bool-cases (a.broadcast && a.timeout)) [
      | inl y ↦
          rw (init_broadcast_socket, z, n, y) (record { told = v.told; few = v.few; held = v.held })
      | inr y ↦
          rw (init_broadcast_socket, z, n, y) (record { told = v.told; few = v.few; held = v.held })
    ]
  ]
]

start-IsShort :
    (a : Answers) (s : UdpSocket) (bytes : List ℕ) → IsShort s → IsShort (start a s bytes).0
unfolding start start_recive
start-IsShort a s bytes v =
    let t = (init_broadcast_socket a s).0 in
    let u = init_broadcast_socket-IsShort a s v in
    elim (Bool-cases (init_broadcast_socket a s).1) [
      | inl e ↦
          let w = wait-ends t bytes u in
          rw (start, e)
            (begin_thread-IsShort a (wait (want_stop_thread t) bytes) w.short w.running w.told)
      | inr e ↦ rw (start, e) u
    ]

pub stop-IsShort : (s : UdpSocket) (bytes : List ℕ) → IsShort s → IsShort (stop s bytes)
unfolding stop
stop-IsShort s bytes v =
    let w = (wait-ends s bytes v).short in record { told = w.told; few = w.few; held = w.held }

Moves-IsShort : (s t : UdpSocket) → Moves s t → IsShort s → IsShort t
Moves-IsShort s _ (starts a bytes) v = start-IsShort a s bytes v
Moves-IsShort s _ (passes bytes r) v = (rev_pass-ends s bytes v r (v.told r)).short
Moves-IsShort s _ (stops bytes) v = stop-IsShort s bytes v

-- Each receiving thread ends with its first pass: over the whole life of a CUDPSocket, rev_data is
-- called at most once for each thread that was begun, and so for each successful call of Start.
pub Reach-IsShort : (receiver : Bool) (s : UdpSocket) → Reach receiver s → IsShort s
Reach-IsShort receiver _ created = record {
  told = λ z. absurd (true≢false (sym z));
  few = omega arith;
  held = λ z. absurd (true≢false (sym z));
}
Reach-IsShort receiver _ (moved s t r m) = Moves-IsShort s t m (Reach-IsShort receiver s r)
