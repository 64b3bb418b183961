-- ===== src/Tcp/Table/Passes.antt =====
-- What ProcessAccept and ProcessReceive change in the table of connections.
use windows_verifyserver.Prelude.{
  ℕ, ◌≡◌, refl, sym, ap, ◌∙◌, List, [], ◌∷◌, none, some, Bool, true, false, ◌==◌, if◌then◌else◌,
  length, get_elem?, Option-cases, inl, inr,
}
use windows_verifyserver.Prelude.Results.{ok, or_fault, null_pointer, ok-injective, bind-ok}
use windows_verifyserver.Tcp.Platform.{Platform}
use windows_verifyserver.Tcp.Receive.{Delivery, receive}
use windows_verifyserver.Tcp.Connections.{Server, Io, add_free_io_context, add_free_socket_context}
use windows_verifyserver.Tcp.Posting.{
  set_io, post_receive, start_receive, enter_client, process_accept, next_receive, process_receive,
  next_conn_id,
}
use windows_verifyserver.Tcp.Ownership.{SocketsOwned}
use windows_verifyserver.Tcp.Table.{Table, Change, opens, closes, change, replay, table}
use windows_verifyserver.Tcp.Table.Entry.{
  Same, Same-table, add_free_socket_context-table, enter_client-table,
}

-- The table of `t` is that of `s` with the changes made.
abbrev pub Follows : Server → Server → List Change → Type 0
Follows s t log = (id : ℕ) → table t id ≡ replay (table s) log id

change-ext :
    (f g : Table) (c : Change) → ((id : ℕ) → f id ≡ g id) → (id : ℕ) → change f c id ≡ change g c id
change-ext f g (opens i sock addr) h id = ap (λ x. if i == id then some (sock, addr) else x) (h id)
change-ext f g (closes i) h id = ap (λ x. if i == id then none else x) (h id)

pub replay-ext :
    (log : List Change) (f g : Table)
    → ((id : ℕ) → f id ≡ g id)
    → (id : ℕ) → replay f log id ≡ replay g log id
replay-ext [] f g h = h
replay-ext (c ∷ log) f g h = replay-ext log (change f c) (change g c) (change-ext f g c h)

pub Same-trans : (s t u : Server) → Same s t → Same t u → Same s u
Same-trans s t u a b = record {
  clients = b.clients ∙ a.clients;
  contexts = b.contexts ∙ a.contexts;
}

pub before-Follows :
    (s t u : Server) (log : List Change) → Same s t → Follows t u log → Follows s u log
before-Follows s t u log e h id = h id ∙ replay-ext log (table t) (table s) (Same-table s t e) id

pub after-Follows :
    (s t u : Server) (log : List Change) → Follows s t log → Same t u → Follows s u log
after-Follows s t u log h e id = Same-table t u e id ∙ h id

pub then-Follows :
    (s t u : Server) (c : Change) (log : List Change)
    → Follows s t (c ∷ [])
    → Follows t u log
    → Follows s u (c ∷ log)
then-Follows s t u c log h k id = k id ∙ replay-ext log (table t) (change (table s) c) h id

pub set_io-Same : (s : Server) (io : ℕ) (f : Io → Io) → Same s (set_io s io f)
unfolding set_io
set_io-Same s io f = elim (Option-cases (get_elem? s.io_store io)) [
  | inl e ↦ rw (set_io, e) (record { clients = refl; contexts = refl })
  | inr (c, e) ↦ rw (set_io, e) (record { clients = refl; contexts = refl })
]

pub add_free_io-Same : (s : Server) (io : ℕ) → Same s (add_free_io_context s io)
unfolding add_free_io_context
add_free_io-Same s io = record { clients = refl; contexts = refl }

post_receive-Same : (started : Bool) (s : Server) (io : ℕ) → Same s (post_receive started s io).0
unfolding post_receive
post_receive-Same true s io =
    let e = set_io-Same s io _ in record { clients = e.clients; contexts = e.contexts }
post_receive-Same false s io = set_io-Same s io _

-- The connection is closed, and the IO_CONTEXT given back.
pub closed-Follows :
    (s : Server) (id io : ℕ)
    → Follows s (add_free_io_context (add_free_socket_context s id) io) (closes id ∷ [])
closed-Follows s id io =
    after-Follows s (add_free_socket_context s id) _ (closes id ∷ [])
      (add_free_socket_context-table s id) (add_free_io-Same (add_free_socket_context s id) io)

start_receive-Follows :
    (attached started : Bool) (s : Server) (id io : ℕ)
    → Follows s (start_receive attached started s id io).0 (if attached then [] else closes id ∷ [])
unfolding start_receive post_receive
start_receive-Follows false started s id io = closed-Follows s id io
start_receive-Follows true true s id io = Same-table s _ (post_receive-Same true s io)
start_receive-Follows true false s id io = Same-table s _ (
    Same-trans s (post_receive false s io).0 _ (post_receive-Same false s io)
      (add_free_io-Same (post_receive false s io).0 io))

next_receive-Follows :
    (started : Bool) (s : Server) (id io : ℕ)
    → Follows s (next_receive started s id io) (if started then [] else closes id ∷ [])
unfolding next_receive post_receive
next_receive-Follows true s id io = Same-table s _ (post_receive-Same true s io)
next_receive-Follows false s id io =
    let s' = (post_receive false s io).0 in
    before-Follows s s' (add_free_io_context (add_free_socket_context s' id) io) (closes id ∷ [])
      (post_receive-Same false s io) (closed-Follows s' id io)

pub process_accept-Follows :
    (attached started : Bool) (s : Server) (io sock peer : ℕ)
    → SocketsOwned [] s
    → Follows s (process_accept attached started s io sock peer).0 (
        opens (next_conn_id s.last_conn_id) sock peer
        ∷ (if attached then [] else closes (next_conn_id s.last_conn_id) ∷ []))
unfolding process_accept
process_accept-Follows attached started s io sock peer o =
    let id = next_conn_id s.last_conn_id in
    let t = (enter_client s sock peer).0 in
    then-Follows s t (start_receive attached started t id io).0 (opens id sock peer)
      (if attached then [] else closes id ∷ []) (λ other. enter_client-table s sock peer other o)
      (start_receive-Follows attached started t id io)

pub process_receive-Follows :
    (p : Platform) (receiver started : Bool) (s t : Server) (id io : ℕ) (bytes : List ℕ)
    (out : List Delivery)
    → process_receive p receiver started s id io bytes ≡ ok (t, out)
    → Follows s t (if started then [] else closes id ∷ [])
unfolding process_receive
process_receive-Follows p receiver started s t id io bytes out e =
    let (c, _, g) = bind-ok (or_fault (get_elem? s.io_store io) null_pointer) _ (t, out) e in
    let (r, _, k) = bind-ok (receive p receiver id c.assembly bytes) _ (t, out) g in
    let s' = set_io s io (λ c'. record c' { assembly = r.0; len = length bytes }) in
    let m : next_receive started s' id io ≡ t = ap (λ x. x.0) (ok-injective _ _ k) in
    rw (sym m) (
      before-Follows s s' (next_receive started s' id io) (if started then [] else closes id ∷ [])
        (set_io-Same s io _) (next_receive-Follows started s' id io))
