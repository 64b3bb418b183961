-- ===== src/Tcp/Table/Entry.antt =====
-- The table of connections after each of the operations that touch a SOCKET_CONTEXT.
use windows_verifyserver.Prelude.{
  ℕ, zero, suc, ◌+◌, ◌≤◌, ◌<◌, ◌≡◌, ◌≢◌, refl, sym, ap, ap₂, ◌∙◌, List, [], ◌∷◌, ◌++◌, Option, none,
  some, Bool, true, false, ◌==◌, if◌then◌else◌, length, get_elem?, get_elem?-set_self,
  get_elem?-set_ne, Option-cases, inl, inr, arith,
}
use windows_verifyserver.Prelude.Counts.{count, same, same_self}
use windows_verifyserver.Tcp.Connections.{
  release_context, Server, SocketContext, find, accept, get_free_socket_context,
  add_free_socket_context,
}
use windows_verifyserver.Tcp.Connections.Clients.{
  add_free_socket_context-find, enter_client-find, taken-clients,
}
use windows_verifyserver.Tcp.Posting.{next_conn_id, set_addr, enter_client}
use windows_verifyserver.Tcp.Ownership.{SocketsOwned, contexts_of, slot}
use windows_verifyserver.Tcp.Ownership.Sockets.{get_free-SocketsOwned, close_socket-fields}
use windows_verifyserver.Tcp.Table.{update, entry, table}

-- What a table is read from.
pub record Same (s t : Server) : Type 0 where
  pub clients : t.clients ≡ s.clients
  pub contexts : t.contexts ≡ s.contexts

pub Same-table : (s t : Server) → Same s t → (id : ℕ) → table t id ≡ table s id
Same-table s t e id = ap₂ (λ cs clients. entry cs (find clients id)) e.contexts e.clients

entry-if :
    (cs : List SocketContext) (b : Bool) (o o' : Option ℕ)
    → entry cs (if b then o else o') ≡ (if b then entry cs o else entry cs o')
entry-if cs true o o' = refl
entry-if cs false o o' = refl

add_free_socket_context-contexts :
    (s : Server) (id : ℕ) → (add_free_socket_context s id).contexts ≡ s.contexts
unfolding release_context
add_free_socket_context-contexts s id = elim (Option-cases (find s.clients id)) [
  | inl e ↦ rw (add_free_socket_context, e) refl
  | inr (c, e) ↦ rw (add_free_socket_context, e, (close_socket-fields s c).1) refl
]

-- AddFreeSocketContext closes the connection.
pub add_free_socket_context-table :
    (s : Server) (id other : ℕ)
    → table (add_free_socket_context s id) other ≡ update (table s) id none other
add_free_socket_context-table s id other =
    ap₂ entry (add_free_socket_context-contexts s id) (add_free_socket_context-find s id other)
    ∙ entry-if s.contexts (id == other) none (find s.clients other)

-- A context of the heap is written, and the others stay as they were.
record Placed (cs ds : List SocketContext) (x sock addr : ℕ) : Type 0 where
  new : SocketContext
  there : get_elem? ds x ≡ some new
  socket : new.sock ≡ sock
  address : new.addr ≡ addr
  others : (c : ℕ) → c ≢ x → c < length cs → get_elem? ds c ≡ get_elem? cs c

get_context :
    (cs : List SocketContext) (x : ℕ)
    → x < length cs
    → (c : SocketContext) × (get_elem? cs x ≡ some c)
get_context [] x h = absurd (omega arith)
get_context (c ∷ cs) zero h = (c, refl)
get_context (c ∷ cs) (suc x) h = get_context cs x (omega arith)

found_lt :
    (cs : List SocketContext) (x : ℕ) (c : SocketContext) → get_elem? cs x ≡ some c → x < length cs
found_lt [] x c e = absurd cc
found_lt (d ∷ cs) zero c e = omega arith
found_lt (d ∷ cs) (suc x) c e = omega (arith, found_lt cs x c e)

get_elem?-push_old :
    (cs : List SocketContext) (d : SocketContext) (c : ℕ)
    → c < length cs
    → get_elem? (cs ++ d ∷ []) c ≡ get_elem? cs c
get_elem?-push_old [] d c h = absurd (omega arith)
get_elem?-push_old (x ∷ cs) d zero h = refl
get_elem?-push_old (x ∷ cs) d (suc c) h = get_elem?-push_old cs d c (omega arith)

get_elem?-push_new :
    (cs : List SocketContext) (d : SocketContext) → get_elem? (cs ++ d ∷ []) (length cs) ≡ some d
get_elem?-push_new [] d = refl
get_elem?-push_new (x ∷ cs) d = get_elem?-push_new cs d

-- GetFreeSocketContext sets the socket, and the address comes later.
taken-Placed :
    (s : Server) (id sock : ℕ) (free : List ℕ)
    → s.free_sockets ≡ free
    → SocketsOwned [] s
    → let got = get_free_socket_context s id sock in
      (addr : ℕ) × Placed s.contexts got.0.contexts got.1 sock addr
unfolding get_free_socket_context count
taken-Placed s id sock [] e o =
    simp (get_free_socket_context, e)
      (
        0,
        record {
          new = record { conn_id = id; sock = sock; addr = 0 };
          there = get_elem?-push_new s.contexts (record { conn_id = id; sock = sock; addr = 0 });
          socket = refl;
          address = refl;
          others = λ c n h.
              get_elem?-push_old s.contexts (record { conn_id = id; sock = sock; addr = 0 }) c h;
        },
      )
taken-Placed s id sock (x ∷ free) e o =
    let q : count x s.free_sockets ≡ same x x + count x free = rw e in
    let (c, k) = get_context s.contexts x (ground (arith, o x, q, same_self x)) in
    let d : SocketContext = record c { conn_id = id; sock = sock } in
    simp (get_free_socket_context, e, k)
      (
        c.addr,
        record {
          new = d;
          there = get_elem?-set_self s.contexts x d (found_lt s.contexts x c k);
          socket = refl;
          address = refl;
          others = λ c' n h. get_elem?-set_ne s.contexts d (λ z. n (sym z));
        },
      )

set_addr-Placed :
    (cs : List SocketContext) (s : Server) (x sock addr peer : ℕ)
    → Placed cs s.contexts x sock addr
    → Placed cs (set_addr s x peer).contexts x sock peer
set_addr-Placed cs s x sock addr peer p =
    let d : SocketContext = record p.new { addr = peer } in
    rw (set_addr, p.there)
      (record {
        new = d;
        there = get_elem?-set_self s.contexts x d (found_lt s.contexts x p.new p.there);
        socket = p.socket;
        address = refl;
        others = λ c n h. get_elem?-set_ne s.contexts d (λ z. n (sym z)) ∙ p.others c n h;
      })

-- A context in the map is counted among the map's.
find-count :
    (clients : List (ℕ × ℕ)) (id c : ℕ)
    → find clients id ≡ some c
    → 0 < count c (contexts_of clients)
unfolding count
find-count [] id c e = absurd cc
find-count ((key, x) ∷ clients) id c e = ground (arith, find-count clients id c, same_self c)

-- The entry of another number is read from a context that has not been written.
entry-Placed :
    (cs ds : List SocketContext) (x sock addr : ℕ) (clients : List (ℕ × ℕ)) (other : ℕ)
    → Placed cs ds x sock addr
    → ((c : ℕ) → 0 < count c (contexts_of clients) → (c ≢ x) × (c < length cs))
    → entry ds (find clients other) ≡ entry cs (find clients other)
entry-Placed cs ds x sock addr clients other p h = elim (Option-cases (find clients other)) [
  | inl e ↦ rw e refl
  | inr (c, e) ↦
      let (n, l) = h c (find-count clients other c e) in
      ap (entry ds) e ∙ rw (entry, p.others c n l) refl ∙ sym (ap (entry cs) e)
]

entry-new :
    (cs ds : List SocketContext) (x sock addr : ℕ)
    → Placed cs ds x sock addr
    → entry ds (some x) ≡ some (sock, addr)
entry-new cs ds x sock addr p = rw (entry, p.there) (ap₂ (λ a b. some (a, b)) p.socket p.address)

slot_le : (n i : ℕ) → slot n i ≤ 1
slot_le n i = ground arith

slot_lt : (n i : ℕ) → 0 < slot n i → i < n
slot_lt n i h = ground arith

-- The new context is none of those in the map.
taken-apart :
    (s : Server) (id sock : ℕ)
    → SocketsOwned [] s
    → (c : ℕ) → 0 < count c (contexts_of s.clients)
    → (c ≢ (get_free_socket_context s id sock).1) × (c < length s.contexts)
unfolding count
taken-apart s id sock o c h =
    let got = get_free_socket_context s id sock in
    let v = get_free-SocketsOwned [] s id sock o in
    let k = taken-clients s id sock s.free_sockets refl in
    let m : count c (contexts_of got.0.clients) ≡ count c (contexts_of s.clients) =
      ap (λ xs. count c (contexts_of xs)) k in
    let most = slot_le (length got.0.contexts) c in
    (
      λ e.
          let one : same c got.1 ≡ 1 = ap (same c) (sym e) ∙ same_self c in
          omega (arith, v c, m, most, one, h),
      slot_lt (length s.contexts) c (omega (arith, o c, h)),
    )

-- The end of ProcessAccept's new connection: the table has it, and is otherwise as it was.
pub enter_client-table :
    (s : Server) (sock peer other : ℕ)
    → SocketsOwned [] s
    → table (enter_client s sock peer).0 other
      ≡ update (table s) (next_conn_id s.last_conn_id) (some (sock, peer)) other
unfolding enter_client
enter_client-table s sock peer other o =
    let id = next_conn_id s.last_conn_id in
    let s' : Server = record s { port = s.port ++ accept ∷ []; last_conn_id = id } in
    let got = get_free_socket_context s' id sock in
    let (addr, p) = taken-Placed s' id sock s'.free_sockets refl o in
    let q = set_addr-Placed s.contexts got.0 got.1 sock addr peer p in
    let ds = (set_addr got.0 got.1 peer).contexts in
    ap (entry ds) (enter_client-find s sock peer other)
    ∙ entry-if ds (id == other) (some got.1) (find s.clients other)
    ∙ ap₂ (λ x y. if id == other then x else y) (entry-new s.contexts ds got.1 sock peer q)
        (entry-Placed s.contexts ds got.1 sock peer s.clients other q (taken-apart s' id sock o))
