-- ===== src/Tcp/Table/History.antt =====
-- What the server's connections are after any history of its worker threads and its callers.
use windows_verifyserver.Prelude.{
  ℕ, ◌≡◌, refl, sym, ap, ◌∙◌, List, [], ◌∷◌, ◌++◌, none, Bool, true, false, Option-cases, inl, inr,
}
use windows_verifyserver.Prelude.Results.{Result, ok, err}
use windows_verifyserver.Tcp.Platform.{Platform, IsSound}
use windows_verifyserver.Tcp.Connections.{Server, find}
use windows_verifyserver.Tcp.Posting.{disconnect_client}
use windows_verifyserver.Tcp.Worker.Holds.{Holds}
use windows_verifyserver.Tcp.Sending.Sends.{send-Sends}
use windows_verifyserver.Tcp.Sending.Reach.{
  Moves, serves, sends, disconnects, Reach, created, moved, Reach-Holds,
}
use windows_verifyserver.Tcp.Table.{Table, Change, change, replay, table, changes}
use windows_verifyserver.Tcp.Table.Entry.{Same, Same-table}
use windows_verifyserver.Tcp.Table.Passes.{Follows, replay-ext}
use windows_verifyserver.Tcp.Table.Refines.{worker_step-Follows}

-- No connection is open.
abbrev pub no_connections : Table
no_connections id = none

replay-append :
    (first : List Change) (t : Table) (later : List Change) (id : ℕ)
    → replay t (first ++ later) id ≡ replay (replay t first) later id
replay-append [] t later id = refl
replay-append (c ∷ first) t later id = replay-append first (change t c) later id

abbrev state_after : Server → Result (Server × Bool) → Server
state_after d (ok r) = r.0
state_after d (err e) = d

module _ (p : Platform) (receiver : Bool) where
  -- The changes of a step.
  abbrev pub step_changes : (s t : Server) → Moves p receiver s t → List Change
  step_changes s t (serves a c u out g e) = changes a s c
  step_changes s t (sends started conn_id sock payload u sent k h e) = []
  step_changes s t (disconnects posted conn_id) = []

  -- The changes of a history.
  abbrev pub log : (s : Server) → Reach p receiver s → List Change
  log s created = []
  log s (moved r t h m) = log r h ++ step_changes r t m

  disconnect_client-Same :
      (posted : Bool) (s : Server) (conn_id : ℕ) → Same s (disconnect_client posted s conn_id).0
  unfolding disconnect_client
  disconnect_client-Same true s conn_id = elim (Option-cases (find s.clients conn_id)) [
    | inl e ↦ rw (disconnect_client, e) (record { clients = refl; contexts = refl })
    | inr (c, e) ↦ rw (disconnect_client, e) (record { clients = refl; contexts = refl })
  ]
  disconnect_client-Same false s conn_id = elim (Option-cases (find s.clients conn_id)) [
    | inl e ↦ rw (disconnect_client, e) (record { clients = refl; contexts = refl })
    | inr (c, e) ↦ rw (disconnect_client, e) (record { clients = refl; contexts = refl })
  ]

  Moves-Follows :
      IsSound p
      → (s t : Server) (m : Moves p receiver s t) → Holds [] s
      → Follows s t (step_changes s t m)
  Moves-Follows sound s _ (serves a c t out g e) v =
      worker_step-Follows p receiver a s t c out v.sockets e
  Moves-Follows sound s _ (sends started conn_id sock payload t sent k h e) v =
      let z = send-Sends started s conn_id sock payload v k h in
      let m : z.after ≡ t = ap (state_after s) (sym z.result ∙ e) in
      rw (sym m) (Same-table s z.after (record { clients = z.clients; contexts = z.contexts }))
  Moves-Follows sound s _ (disconnects posted conn_id) v =
      Same-table s _ (disconnect_client-Same posted s conn_id)

  -- For a server whose worker threads and callers go on one at a time, so that no pass and no call
  -- begins before the last one has ended: in every state that it reaches from its construction on by
  -- passes over genuine completions, by Send of at most 1009 bytes to a connection and by Disconnect,
  -- its open connections, with the socket and the peer of each, are those that the log of these
  -- completions gives. What Send and Disconnect do is not seen in it. A completion that closes a
  -- connection closes the one whose number is in its SOCKET_CONTEXT when it is served: where that has
  -- been given to a new connection since the operation began, it is the new one.
  pub Reach-table :
      IsSound p
      → (s : Server) (r : Reach p receiver s) (id : ℕ)
      → table s id ≡ replay no_connections (log s r) id
  Reach-table sound _ created id = refl
  Reach-table sound _ (moved s t r m) id =
      Moves-Follows sound s t m (Reach-Holds p receiver sound s r) id
      ∙ replay-ext (step_changes s t m) (table s) _ (Reach-table sound s r) id
      ∙ sym (replay-append (log s r) no_connections (step_changes s t m) id)
