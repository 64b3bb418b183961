-- ===== src/Tcp/Sending/Reach.antt =====
-- The states of the server that its worker threads and its callers lead to.
use windows_verifyserver.Prelude.{
  ℕ, ◌+◌, ◌≤◌, ◌≡◌, sym, ap, ◌∙◌, List, [], Bool, true, false, length, Option-cases, inl, inr,
  arith,
}
use windows_verifyserver.Prelude.Counts.{count}
use windows_verifyserver.Prelude.Results.{Result, ok, err}
use windows_verifyserver.Tcp.Platform.{Platform, IsSound}
use windows_verifyserver.Tcp.Receive.{Delivery}
use windows_verifyserver.Tcp.Connections.{Server, new_server, max_buffer, find}
use windows_verifyserver.Tcp.Posting.{disconnect_client}
use windows_verifyserver.Tcp.Worker.{Completion, Answers, Step, goes_on, exits, worker_step}
use windows_verifyserver.Tcp.Worker.Holds.{Holds}
use windows_verifyserver.Tcp.Worker.Safety.{
  IsGenuine, Served, through, over, fails, stale, worker_step-Served,
}
use windows_verifyserver.Tcp.Sending.{send}
use windows_verifyserver.Tcp.Sending.Sends.{IsConnected, send-Sends}

abbrev state_of : Server → Result Step → Server
state_of d (ok (goes_on s out)) = s
state_of d (ok (exits s)) = s
state_of d (err e) = d

abbrev sent_of : Server → Result (Server × Bool) → Server
sent_of d (ok r) = r.0
sent_of d (err e) = d

module _ (p : Platform) (receiver : Bool) where
  -- What changes the server: a pass of a worker thread, Send, Disconnect.
  pub data Moves (s : Server) : Server → Type 0 where
    serves :
        (a : Answers) (c : Completion) (t : Server) (out : List Delivery)
        → IsGenuine s c
        → worker_step p receiver a s c ≡ ok (goes_on t out)
        → Moves s t
    sends :
        (started : ℕ → Bool) (conn_id sock : ℕ) (payload : List ℕ) (t : Server) (sent : Bool)
        → IsConnected s conn_id sock
        → length payload + 15 ≤ max_buffer
        → send started s conn_id payload ≡ ok (t, sent)
        → Moves s t
    disconnects : (posted : Bool) (conn_id : ℕ) → Moves s (disconnect_client posted s conn_id).0

  pub data Reach : Server → Type 0 where
    created : Reach new_server
    moved : (s t : Server) → Reach s → Moves s t → Reach t

  Served-Holds :
      (s t : Server) (c : Completion) (out : List Delivery) (r : Result Step)
      → r ≡ ok (goes_on t out)
      → Served s c r
      → Holds [] t
  Served-Holds s t _ out _ e (through c t' out' v) = rw (ap (state_of s) (sym e)) v
  Served-Holds s t _ out _ e (over c t' v) = rw (ap (state_of s) (sym e)) v
  Served-Holds s t _ out _ e (fails c) = absurd cc
  Served-Holds s t _ out _ e (stale io key bytes error d) = absurd cc

  disconnect_client-Holds :
      (posted : Bool) (s : Server) (conn_id : ℕ)
      → Holds [] s
      → Holds [] (disconnect_client posted s conn_id).0
  unfolding disconnect_client
  disconnect_client-Holds true s conn_id v = elim (Option-cases (find s.clients conn_id)) [
    | inl e ↦ rw (disconnect_client, e) v
    | inr (c, e) ↦
        rw (disconnect_client, e) (record { ios = v.ios; sockets = v.sockets; ready = v.ready })
  ]
  disconnect_client-Holds false s conn_id v = elim (Option-cases (find s.clients conn_id)) [
    | inl e ↦ rw (disconnect_client, e) v
    | inr (c, e) ↦ rw (disconnect_client, e) v
  ]

  Moves-Holds : IsSound p → (s t : Server) → Moves s t → Holds [] s → Holds [] t
  Moves-Holds sound s _ (serves a c t out g e) v =
      Served-Holds s t c out (worker_step p receiver a s c) e
        (worker_step-Served p sound receiver a s c v g)
  Moves-Holds sound s _ (sends started conn_id sock payload t sent k h e) v =
      let z = send-Sends started s conn_id sock payload v k h in
      rw (ap (sent_of s) (sym e ∙ z.result)) z.holds
  Moves-Holds sound s _ (disconnects posted conn_id) v = disconnect_client-Holds posted s conn_id v

  new_server-Holds : Holds [] new_server
  unfolding count
  new_server-Holds = record { ios = λ i. omega arith; sockets = λ i. omega arith; ready = tt }

  -- For a server whose worker threads and callers go on one at a time, so that no pass and no call
  -- begins before the last one has ended: in every state that it reaches from its construction on by
  -- passes over genuine completions, by Send of at most 1009 bytes to a connection and by Disconnect,
  -- each context is in one place at most, and each reassembly is in one of its states.
  pub Reach-Holds : IsSound p → (s : Server) → Reach s → Holds [] s
  Reach-Holds sound _ created = new_server-Holds
  Reach-Holds sound _ (moved s t r m) = Moves-Holds sound s t m (Reach-Holds sound s r)
