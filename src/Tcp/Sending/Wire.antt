-- ===== src/Tcp/Sending/Wire.antt =====
-- What one round of _send gives to Windows.
use windows_verifyserver.Prelude.{
  ℕ, zero, suc, ◌≤◌, ◌<◌, ◌≡◌, refl, sym, ap, ◌∙◌, List, [], ◌∷◌, ◌++◌, some, Bool, true, false,
  if◌then◌else◌, length, get_elem?, set, drop, get_elem?-set_self, append-nil, length-append,
  length-drop, arith,
}
use windows_verifyserver.Prelude.Counts.{count, same_self}
use windows_verifyserver.Prelude.Memory.{copy_behind, copy_out_of_range, take-append}
use windows_verifyserver.Prelude.Results.{Result, ok, err, out_of_bounds}
use windows_verifyserver.Tcp.Connections.{
  Server, Io, writing, max_buffer, get_free_io_context, add_free_io_context,
}
use windows_verifyserver.Tcp.Posting.{set_io, post_send, outgoing}
use windows_verifyserver.Tcp.Worker.Holds.{
  Holds, IsReady, AllReady-get, get_free_io-Holds, set_io-Holds, add_free_io-Holds, post-Holds,
  slot_lt, get_elem?-lt,
}
use windows_verifyserver.Tcp.Sending.{hand_over, send_once}

-- The bytes `wire` are given to Windows if it takes them, and nothing is if it does not; the
-- contexts stay in order, and the connections as they were.
pub record Sends (s : Server) (started : Bool) (wire : List (ℕ × List ℕ))
    (r : Result (Server × Bool)) : Type 0 where
  pub after : Server
  pub result : r ≡ ok (after, started)
  pub on_wire : after.sent ≡ s.sent ++ (if started then wire else [])
  pub holds : Holds [] after
  pub clients : after.clients ≡ s.clients
  pub contexts : after.contexts ≡ s.contexts

-- What GetFreeIOContext leaves alone.
record Untouched (s t : Server) : Type 0 where
  sent : t.sent ≡ s.sent
  clients : t.clients ≡ s.clients
  contexts : t.contexts ≡ s.contexts

taken-Untouched :
    (s : Server) (free : List ℕ) → s.free_ios ≡ free → Untouched s (get_free_io_context s).0
unfolding get_free_io_context
taken-Untouched s [] e =
    simp (get_free_io_context, e) (record { sent = refl; clients = refl; contexts = refl })
taken-Untouched s (x ∷ free) e =
    simp (get_free_io_context, e) (record { sent = refl; clients = refl; contexts = refl })

set_io-found :
    (s : Server) (io : ℕ) (c : Io) (f : Io → Io)
    → get_elem? s.io_store io ≡ some c
    → set_io s io f ≡ record s { io_store = set s.io_store io (f c) }
unfolding set_io
set_io-found s io c f e = rw (set_io, e) refl

-- An IO_CONTEXT that the code holds exists.
held-get : (s : Server) (io : ℕ) → Holds (io ∷ []) s → (c : Io) × (get_elem? s.io_store io ≡ some c)
unfolding count
held-get s io v =
    get_elem?-lt s.io_store io
      (slot_lt (length s.io_store) io (omega (arith, v.ios io, same_self io)))

found-lt : (cs : List Io) (i : ℕ) (c : Io) → get_elem? cs i ≡ some c → i < length cs
found-lt [] i c e = absurd (ground arith)
found-lt (x ∷ cs) zero c e = omega arith
found-lt (x ∷ cs) (suc i) c e = omega (arith, found-lt cs i c e)

module _ (s : Server) (io sock : ℕ) (c : Io) (bytes : List ℕ) where
  -- The filled IO_CONTEXT.
  abbrev filled : Io
  filled = record c {
    buf = bytes ++ drop (length bytes) c.buf;
    len = length bytes;
    so = writing;
    sock_accept = sock;
  }

  abbrev fill : Server
  fill = record s { io_store = set s.io_store io filled }

  -- PostSend sets `so` once more.
  abbrev marked : Server
  marked = record fill { io_store = set fill.io_store io filled }

  module _ (e : get_elem? s.io_store io ≡ some c) (h : length bytes ≤ length c.buf) where
    filled-get : get_elem? fill.io_store io ≡ some filled
    filled-get = get_elem?-set_self s.io_store io filled (found-lt s.io_store io c e)

    set_io-marked : set_io fill io (λ c'. record c' { so = writing }) ≡ marked
    set_io-marked = set_io-found fill io filled (λ c'. record c' { so = writing }) filled-get

    outgoing-marked : outgoing marked io ≡ (sock, bytes) ∷ []
    outgoing-marked =
        rw
          (
            outgoing,
            get_elem?-set_self fill.io_store io filled
                (found-lt fill.io_store io filled filled-get),
            take-append (length bytes) bytes (drop (length bytes) c.buf) refl,
          )
          refl

    filled-IsReady : Holds (io ∷ []) s → IsReady filled
    filled-IsReady v =
        let r = AllReady-get s.io_store io c v.ready e in
        (
          r.0,
          omega (
            arith,
            r.1,
            length-append bytes (drop (length bytes) c.buf),
            length-drop (length bytes) c.buf,
          ),
        )

    marked-Holds : Holds (io ∷ []) s → Holds (io ∷ []) marked
    marked-Holds v = rw (sym set_io-marked) (
        set_io-Holds (io ∷ []) fill io (λ c'. record c' { so = writing }) (λ c' r. r)
          (rw (sym (set_io-found s io c (λ c'. filled) e))
            (set_io-Holds (io ∷ []) s io (λ c'. filled) (λ c' r. filled-IsReady v) v)))

    hand_over-Sends :
        (started : Bool)
        → Holds (io ∷ []) s
        → Sends s started ((sock, bytes) ∷ []) (ok (hand_over false started fill io))
    unfolding hand_over post_send add_free_io_context
    hand_over-Sends true v =
        let w = marked-Holds v in
        let t : Server = record marked { sent = marked.sent ++ (sock, bytes) ∷ [] } in
        record {
          after = record t { in_flight = io ∷ t.in_flight };
          result = rw (hand_over, post_send, set_io-marked, outgoing-marked) refl;
          on_wire = refl;
          holds =
              post-Holds true [] t io
                (record { ios = w.ios; sockets = w.sockets; ready = w.ready });
          clients = refl;
          contexts = refl;
        }
    hand_over-Sends false v = record {
      after = add_free_io_context marked io;
      result = rw (hand_over, post_send, set_io-marked) refl;
      on_wire = sym (append-nil s.sent);
      holds = add_free_io-Holds [] marked io (marked-Holds v);
      clients = refl;
      contexts = refl;
    }

-- A round of the loop gives the bytes to Windows, if they fit in the buffer.
pub send_once-Sends :
    (started : Bool) (s : Server) (sock : ℕ) (bytes : List ℕ)
    → Holds [] s
    → length bytes ≤ max_buffer
    → Sends s started ((sock, bytes) ∷ []) (send_once false started s sock bytes)
unfolding send_once
send_once-Sends started s sock bytes v h =
    let got = get_free_io_context s in
    let w = get_free_io-Holds [] s v in
    let u = taken-Untouched s s.free_ios refl in
    let (c, e) = held-get got.0 got.1 w in
    let fits : length bytes ≤ length c.buf =
      omega (arith, h, (AllReady-get got.0.io_store got.1 c w.ready e).1) in
    let z = hand_over-Sends got.0 got.1 sock c bytes e fits started w in
    record {
      after = z.after;
      result =
          rw
            (
              send_once,
              e,
              copy_behind 0 [] c.buf bytes refl fits,
              set_io-found got.0 got.1 c
                  (λ c'. record c' {
                    buf = bytes ++ drop (length bytes) c.buf;
                    len = length bytes;
                    so = writing;
                    sock_accept = sock;
                  })
                  e,
            )
            z.result;
      on_wire = z.on_wire ∙ ap (λ x. x ++ (if started then (sock, bytes) ∷ [] else [])) u.sent;
      holds = z.holds;
      clients = z.clients ∙ u.clients;
      contexts = z.contexts ∙ u.contexts;
    }

-- More bytes than the buffer has are written behind its end.
pub send_once-overrun :
    (started : Bool) (s : Server) (sock : ℕ) (bytes : List ℕ)
    → Holds [] s
    → max_buffer < length bytes
    → send_once false started s sock bytes ≡ err out_of_bounds
unfolding send_once
send_once-overrun started s sock bytes v h =
    let got = get_free_io_context s in
    let w = get_free_io-Holds [] s v in
    let (c, e) = held-get got.0 got.1 w in
    rw
      (
        send_once,
        e,
        copy_out_of_range c.buf 0 bytes
            (omega (arith, h, (AllReady-get got.0.io_store got.1 c w.ready e).1)),
      )
      refl
