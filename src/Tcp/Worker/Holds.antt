-- ===== src/Tcp/Worker/Holds.antt =====
-- What holds of the server's contexts, and that each operation on them keeps it.
use windows_verifyserver.Prelude.{
  ℕ, zero, suc, ◌<◌, ◌≡◌, refl, sym, List, [], ◌∷◌, ◌++◌, some, Bool, true, false, length,
  get_elem?, set, length-replicate, Option-cases, inl, inr, arith,
}
use windows_verifyserver.Prelude.Counts.{count, erase_first, count-erase_first}
use mathlib.Core.Option.{some-injective}
use windows_verifyserver.Tcp.Receive.{clean}
use windows_verifyserver.Tcp.Receive.States.{State, waiting}
use windows_verifyserver.Tcp.Connections.{
  Server, Io, add_free_io_context, get_free_io_context, add_free_socket_context, new_io, accepting,
  reading, max_buffer,
}
use windows_verifyserver.Tcp.Posting.{set_io, post, post_accept, post_receive, enter_client}
use windows_verifyserver.Tcp.Ownership.{IosOwned, SocketsOwned, slot}
use windows_verifyserver.Tcp.Ownership.Ios.{
  kept, post-IosOwned, add_free-IosOwned, set_io-IosOwned, get_free-IosOwned,
}
use windows_verifyserver.Tcp.Ownership.Sockets.{
  add_free-SocketsOwned, add_free_socket-IosOwned, enter_client-Owned, add_free_socket-store,
  enter_client-store,
}

-- The reassembly of an IO_CONTEXT is in one of its states, and szBuf has its size.
abbrev pub IsReady : Io → Type 0
IsReady c = State c.assembly × (length c.buf ≡ max_buffer)

abbrev pub AllReady : List Io → Type 0
AllReady [] = Unit
AllReady (c ∷ cs) = IsReady c × AllReady cs

-- Each context is in one place at most, where the code holds the IO_CONTEXTs `held`.
pub record Holds (held : List ℕ) (s : Server) : Type 0 where
  pub ios : IosOwned held s
  pub sockets : SocketsOwned [] s
  pub ready : AllReady s.io_store

clean-State : State clean
clean-State = waiting [] (record {
  idle = refl;
  small = omega arith;
  stored = inr refl;
  head_len = refl;
  short = omega arith;
})

pub new_io-IsReady : IsReady new_io
new_io-IsReady = (clean-State, length-replicate {A = ℕ} max_buffer 0)

AllReady-push : (cs : List Io) (c : Io) → AllReady cs → IsReady c → AllReady (cs ++ c ∷ [])
AllReady-push [] c a s = (s, tt)
AllReady-push (x ∷ cs) c a s = (a.0, AllReady-push cs c a.1 s)

pub AllReady-get :
    (cs : List Io) (i : ℕ) (c : Io) → AllReady cs → get_elem? cs i ≡ some c → IsReady c
AllReady-get [] i c a e = absurd (ground arith)
AllReady-get (x ∷ cs) zero c a e = rw (sym (some-injective x c e)) a.0
AllReady-get (x ∷ cs) (suc i) c a e = AllReady-get cs i c a.1 e

AllReady-set : (cs : List Io) (i : ℕ) (c : Io) → AllReady cs → IsReady c → AllReady (set cs i c)
AllReady-set [] i c a s = tt
AllReady-set (x ∷ cs) zero c a s = (s, a.1)
AllReady-set (x ∷ cs) (suc i) c a s = (a.0, AllReady-set cs i c a.1 s)

set_io-ready :
    (s : Server) (io : ℕ) (f : Io → Io)
    → AllReady s.io_store
    → ((c : Io) → IsReady c → IsReady (f c))
    → AllReady (set_io s io f).io_store
unfolding set_io
set_io-ready s io f a k = elim (Option-cases (get_elem? s.io_store io)) [
  | inl e ↦ rw (set_io, e) a
  | inr (c, e) ↦
      rw (set_io, e) (AllReady-set s.io_store io (f c) a (k c (AllReady-get s.io_store io c a e)))
]

set_io-sockets :
    (s : Server) (io : ℕ) (f : Io → Io) → SocketsOwned [] s → SocketsOwned [] (set_io s io f)
unfolding set_io
set_io-sockets s io f o i = elim (Option-cases (get_elem? s.io_store io)) [
  | inl e ↦ rw (set_io, e) (o i)
  | inr (c, e) ↦ rw (set_io, e) (o i)
]

pub set_io-Holds :
    (held : List ℕ) (s : Server) (io : ℕ) (f : Io → Io)
    → ((c : Io) → IsReady c → IsReady (f c))
    → Holds held s
    → Holds held (set_io s io f)
set_io-Holds held s io f k v = record {
  ios = set_io-IosOwned held s io f v.ios;
  sockets = set_io-sockets s io f v.sockets;
  ready = set_io-ready s io f v.ready k;
}

pub add_free_io-Holds :
    (held : List ℕ) (s : Server) (io : ℕ)
    → Holds (io ∷ held) s
    → Holds held (add_free_io_context s io)
unfolding add_free_io_context
add_free_io-Holds held s io v = record {
  ios = add_free-IosOwned held s io v.ios;
  sockets = v.sockets;
  ready = v.ready;
}

get_free_with :
    (s : Server) (free : List ℕ)
    → s.free_ios ≡ free
    → SocketsOwned [] s
    → AllReady s.io_store
    → SocketsOwned [] (get_free_io_context s).0 × AllReady (get_free_io_context s).0.io_store
unfolding get_free_io_context
get_free_with s [] e o a =
    simp (get_free_io_context, e) (o, AllReady-push s.io_store new_io a new_io-IsReady)
get_free_with s (x ∷ free) e o a = simp (get_free_io_context, e) (o, a)

pub get_free_io-Holds :
    (held : List ℕ) (s : Server)
    → Holds held s
    → Holds ((get_free_io_context s).1 ∷ held) (get_free_io_context s).0
get_free_io-Holds held s v =
    let g = get_free_with s s.free_ios refl v.sockets v.ready in
    record { ios = get_free-IosOwned held s v.ios; sockets = g.0; ready = g.1 }

pub add_free_socket-Holds :
    (held : List ℕ) (s : Server) (id : ℕ) → Holds held s → Holds held (add_free_socket_context s id)
add_free_socket-Holds held s id v = record {
  ios = add_free_socket-IosOwned held s id v.ios;
  sockets = add_free-SocketsOwned [] s id v.sockets;
  ready = rw (add_free_socket-store s id) v.ready;
}

pub slot_lt : (n i : ℕ) → 0 < slot n i → i < n
slot_lt n i h = ground arith

pub get_elem?-lt : (cs : List Io) (i : ℕ) → i < length cs → (c : Io) × (get_elem? cs i ≡ some c)
get_elem?-lt [] i h = elim h [ ]
get_elem?-lt (x ∷ cs) zero h = (x, refl)
get_elem?-lt (x ∷ cs) (suc i) h = get_elem?-lt cs i (omega arith)

pub post-Holds :
    (started : Bool) (held : List ℕ) (s : Server) (io : ℕ)
    → Holds (io ∷ held) s
    → Holds (kept started io held) (post started s io).0
post-Holds true held s io v = record {
  ios = post-IosOwned true held s io v.ios;
  sockets = v.sockets;
  ready = v.ready;
}
post-Holds false held s io v = v

pub post_accept-Holds :
    (started : Bool) (held : List ℕ) (s : Server) (io sock : ℕ)
    → Holds (io ∷ held) s
    → Holds (kept started io held) (post_accept started s io sock).0
unfolding post_accept
post_accept-Holds started held s io sock v = post-Holds started held (set_io s io _) io (
    set_io-Holds (io ∷ held) s io (λ c. record c { so = accepting; sock_accept = sock })
      (λ c st. st) v)

pub post_receive-Holds :
    (started : Bool) (held : List ℕ) (s : Server) (io : ℕ)
    → Holds (io ∷ held) s
    → Holds (kept started io held) (post_receive started s io).0
unfolding post_receive
post_receive-Holds started held s io v = post-Holds started held (set_io s io _) io (
    set_io-Holds (io ∷ held) s io (λ c. record c { so = reading; len = max_buffer }) (λ c st. st) v)

pub enter_client-Holds :
    (held : List ℕ) (s : Server) (sock peer : ℕ)
    → Holds held s
    → Holds held (enter_client s sock peer).0
enter_client-Holds held s sock peer v =
    let o = enter_client-Owned [] held s sock peer v.sockets v.ios in
    record { ios = o.1; sockets = o.0; ready = rw (enter_client-store s sock peer) v.ready }

-- A context that Windows works on exists.
pub in_flight-get :
    (s : Server) (io : ℕ)
    → Holds [] s
    → 0 < count io s.in_flight
    → (c : Io) × (get_elem? s.io_store io ≡ some c)
in_flight-get s io v h =
    get_elem?-lt s.io_store io (slot_lt (length s.io_store) io (omega (arith, v.ios io)))

-- Windows hands a context back.
pub take_back-Holds :
    (s : Server) (io : ℕ)
    → Holds [] s
    → 0 < count io s.in_flight
    → Holds (io ∷ []) (record s { in_flight = erase_first io s.in_flight })
unfolding count
take_back-Holds s io v h = record {
  ios = λ i. omega (arith, v.ios i, count-erase_first i io s.in_flight h);
  sockets = v.sockets;
  ready = v.ready;
}
