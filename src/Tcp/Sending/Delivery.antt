-- ===== src/Tcp/Sending/Delivery.antt =====
-- What one server sends with Send, and what another makes of it with SaveData.
use mathlib.Core.List.{map, flatten}
use windows_verifyserver.Prelude.{
  ℕ, ◌+◌, ◌≤◌, ◌<◌, ◌^◌, ◌≡◌, refl, sym, ap, ◌∙◌, List, [], ◌∷◌, ◌++◌, append_assoc, append-nil,
  true, length, arith,
}
use windows_verifyserver.Prelude.Results.{Result, ok, ◌>>=◌}
use windows_verifyserver.Tcp.Platform.{Platform, IsSound, Allocates}
use windows_verifyserver.Tcp.Packet.Layout.{Frame, packet, bytes, length-bytes, IsFrame}
use windows_verifyserver.Tcp.Receive.{Assembly, receive_all, clean}
use windows_verifyserver.Tcp.Receive.Position.{stream, AllFit, deliveries}
use windows_verifyserver.Tcp.Receive.Session.{AllShort, receive_all-stream}
use windows_verifyserver.Tcp.Connections.{Server, max_buffer}
use windows_verifyserver.Tcp.Worker.Holds.{Holds}
use windows_verifyserver.Tcp.Sending.{send}
use windows_verifyserver.Tcp.Sending.Sends.{IsConnected, send-Sends}

-- Send for one payload after the other, where Windows takes what it is given.
unfoldable pub send_each : Server → ℕ → List (List ℕ) → Result Server
send_each s conn_id [] = ok s
send_each s conn_id (x ∷ payloads) = do
  (s', sent) ← send (λ r. true) s conn_id x
  send_each s' conn_id payloads

-- Payloads whose packets fit in a buffer of the sender.
abbrev pub AllSendable : List (List ℕ) → Type 0
AllSendable [] = Unit
AllSendable (x ∷ payloads) = (length x + 15 ≤ max_buffer) × AllSendable payloads

abbrev pub frames : List (List ℕ) → List Frame
frames payloads = map (packet 50) payloads

-- The writes on a socket, one for each payload.
abbrev pub writes : ℕ → List (List ℕ) → List (ℕ × List ℕ)
writes sock payloads = map (λ x. (sock, bytes (packet 50 x))) payloads

still-IsConnected :
    (s t : Server) (conn_id sock : ℕ)
    → t.clients ≡ s.clients
    → t.contexts ≡ s.contexts
    → IsConnected s conn_id sock
    → IsConnected t conn_id sock
still-IsConnected s t conn_id sock e f c = record {
  context = c.context;
  found = rw e c.found;
  held = c.held;
  exists = rw f c.exists;
  named = c.named;
}

pub send_each-writes :
    (s : Server) (conn_id sock : ℕ) (payloads : List (List ℕ))
    → Holds [] s
    → IsConnected s conn_id sock
    → AllSendable payloads
    → (t : Server) × (send_each s conn_id payloads ≡ ok t)
      × (t.sent ≡ s.sent ++ writes sock payloads)
unfolding send_each
send_each-writes s conn_id sock [] v c a = (s, refl, sym (append-nil s.sent))
send_each-writes s conn_id sock (x ∷ payloads) v c a =
    let z = send-Sends (λ r. true) s conn_id sock x v c a.0 in
    let (t, e, w) =
      send_each-writes z.after conn_id sock payloads z.holds
        (still-IsConnected s z.after conn_id sock z.clients z.contexts c) a.1 in
    (
      t,
      rw (send_each, z.result) e,
      w
          ∙ rw (z.on_wire)
              (append_assoc s.sent ((sock, bytes (packet 50 x)) ∷ []) (writes sock payloads)),
    )

packet-IsFrame : (payload : List ℕ) → length payload + 15 ≤ max_buffer → IsFrame (packet 50 payload)
packet-IsFrame payload h = record { trailer_len = refl; short = omega (arith, h) }

AllFit-frames :
    (limit : ℕ) (payloads : List (List ℕ))
    → max_buffer ≤ limit
    → AllSendable payloads
    → AllFit limit (frames payloads)
AllFit-frames limit [] h a = tt
AllFit-frames limit (x ∷ payloads) h a =
    let v = packet-IsFrame x a.0 in
    ((v, omega (arith, h, a.0, length-bytes (packet 50 x) v)), AllFit-frames limit payloads h a.1)

-- The bytes that the writes carry, one after the other.
abbrev pub carried : List (ℕ × List ℕ) → List ℕ
carried [] = []
carried ((sock, out) ∷ later) = out ++ carried later

carried-writes :
    (sock : ℕ) (payloads : List (List ℕ))
    → carried (writes sock payloads) ≡ stream (frames payloads)
carried-writes sock [] = refl
carried-writes sock (x ∷ payloads) =
    ap (λ out. bytes (packet 50 x) ++ out) (carried-writes sock payloads)

-- Payloads of at most 1009 bytes that Send is given for a connection one after the other, where the
-- contexts are in order and Windows takes each write, reach the receiver at the other end, in order
-- and with nothing else, whatever the chunks are in which TCP brings the written bytes, as long as
-- the other end can allocate `limit` bytes and no chunk exceeds that with ten more bytes.
pub send_each-receive_all :
    (p : Platform) (limit peer_id : ℕ) (s : Server) (conn_id sock : ℕ)
    (payloads chunks : List (List ℕ))
    → IsSound p
    → max_buffer ≤ limit
    → limit < 2 ^ 31
    → Allocates p limit
    → Holds [] s
    → IsConnected s conn_id sock
    → AllSendable payloads
    → AllShort limit chunks
    → flatten chunks ≡ carried (writes sock payloads)
    → (t : Server) × (send_each s conn_id payloads ≡ ok t)
      × (t.sent ≡ s.sent ++ writes sock payloads)
      × (io : Assembly) × (receive_all p true peer_id clean chunks
          ≡ ok (io, deliveries p peer_id (frames payloads)))
send_each-receive_all p limit peer_id s conn_id sock payloads chunks sound big small room v c a
      short e =
    let (t, r, w) = send_each-writes s conn_id sock payloads v c a in
    let (io, q, _) =
      receive_all-stream p sound limit small (omega (arith, big)) room peer_id (frames payloads)
        chunks (AllFit-frames limit payloads big a) short (e ∙ carried-writes sock payloads) in
    (t, r, w, io, q)
