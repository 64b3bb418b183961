-- ===== src/Tcp/Receive/Negative.antt =====
-- A header that announces 2 ^ 31 bytes or more: the length is an `int` and counts as negative.
use windows_verifyserver.Prelude.{
  ℕ, zero, suc, ◌≤◌, ◌<◌, ◌^◌, ◌≡◌, ◌≢◌, ◌∙◌, refl, Bool, List, [], ◌∷◌, length, arith, ◌⊎◌, inl,
  inr, Option-cases,
}
use windows_verifyserver.Prelude.Results.{ok, err, bad_alloc}
use windows_verifyserver.Tcp.Platform.{Platform, IsSound}
use windows_verifyserver.Tcp.Packet.{get_packet_len, no_packet}
use windows_verifyserver.Tcp.Packet.Layout.{get_packet_len_bounds}
use windows_verifyserver.Tcp.Receive.{
  Assembly, begin_packet, save_data, receive, receive_all, rounds,
}
use windows_verifyserver.Tcp.Receive.Moves.{begun, begun-Stuck}
use windows_verifyserver.Tcp.Receive.States.{Waiting, Stuck, step_begin, step-Stuck}

abbrev named : ℕ → Assembly → Assembly
named conn_id io = record io { conn_id = conn_id }

named-Stuck : (conn_id : ℕ) (io : Assembly) → Stuck io → Stuck (named conn_id io)
named-Stuck conn_id io s = record {
  negative = s.negative;
  word = s.word;
  nothing = s.nothing;
  no_head = s.no_head;
}

named-Waiting : (conn_id : ℕ) (io : Assembly) → Waiting io [] → Waiting (named conn_id io) []
named-Waiting conn_id io w = record {
  idle = w.idle;
  small = w.small;
  stored = w.stored;
  head_len = w.head_len;
  short = w.short;
}

module _ (p : Platform) (receiver : Bool) where
  save_data-Stuck :
      (fuel : ℕ) (io : Assembly) (bytes : List ℕ)
      → 0 < fuel
      → Stuck io
      → save_data p receiver fuel io bytes ≡ ok (io, [])
  unfolding save_data
  save_data-Stuck zero io bytes n s = absurd (omega arith)
  save_data-Stuck (suc fuel) io bytes n s =
      step-Stuck p receiver (save_data p receiver fuel) io bytes s

  -- The header's own chunk.
  save_data-negative :
      (fuel : ℕ) (io : Assembly) (bytes : List ℕ)
      → IsSound p
      → 1 < fuel
      → Waiting io []
      → 10 < length bytes
      → get_packet_len bytes ≢ no_packet
      → 2 ^ 31 ≤ get_packet_len bytes
      → (save_data p receiver fuel io bytes ≡ err bad_alloc)
        ⊎ ((io' : Assembly) × (save_data p receiver fuel io bytes ≡ ok (io', [])) × Stuck io')
  unfolding save_data begin_packet
  save_data-negative zero io bytes sound f w h e n = absurd (omega arith)
  save_data-negative (suc fuel) io bytes sound f w h e n =
      let step = step_begin p receiver (save_data p receiver fuel) io bytes w h e in
      elim (Option-cases (p.new_bytes (get_packet_len bytes))) [
        | inl full ↦ inl (step ∙ rw full)
        | inr (block, got) ↦
            let s =
              begun-Stuck io block (get_packet_len bytes) w n (get_packet_len_bounds bytes e).1 in
            inr (
              begun io block (get_packet_len bytes),
              step
                  ∙ rw got (
                      save_data-Stuck fuel (begun io block (get_packet_len bytes)) bytes
                        (omega arith) s),
              s,
            )
      ]

  receive-Stuck :
      (conn_id : ℕ) (io : Assembly) (bytes : List ℕ)
      → Stuck io
      → receive p receiver conn_id io bytes ≡ ok (named conn_id io, [])
  unfolding receive
  receive-Stuck conn_id io bytes s =
      save_data-Stuck (rounds (named conn_id io) bytes) (named conn_id io) bytes (omega arith)
        (named-Stuck conn_id io s)

  -- A connection inside such a packet hands nothing over any more, whatever comes.
  receive_all-Stuck :
      (conn_id : ℕ) (chunks : List (List ℕ)) (io : Assembly)
      → Stuck io
      → (io' : Assembly) × (receive_all p receiver conn_id io chunks ≡ ok (io', []))
  unfolding receive_all
  receive_all-Stuck conn_id [] io s = (io, refl)
  receive_all-Stuck conn_id (c ∷ chunks) io s =
      let (io', e) =
        receive_all-Stuck conn_id chunks (named conn_id io) (named-Stuck conn_id io s) in
      (io', rw (receive-Stuck conn_id io c s, e))

  -- After a header that announces a length of 2 ^ 31 or more, where a packet is to begin, either
  -- `new` throws, or the connection hands over nothing of that chunk and of all chunks to come.
  pub receive_all-negative :
      (sound : IsSound p) (conn_id : ℕ) (io : Assembly) (bytes : List ℕ) (chunks : List (List ℕ))
      → Waiting io []
      → 10 < length bytes
      → get_packet_len bytes ≢ no_packet
      → 2 ^ 31 ≤ get_packet_len bytes
      → (receive_all p receiver conn_id io (bytes ∷ chunks) ≡ err bad_alloc)
        ⊎ ((io' : Assembly) × (receive_all p receiver conn_id io (bytes ∷ chunks) ≡ ok (io', [])))
  unfolding receive_all receive
  receive_all-negative sound conn_id io bytes chunks w h e n =
      elim (save_data-negative (rounds (named conn_id io) bytes) (named conn_id io) bytes sound
        (omega arith) (named-Waiting conn_id io w) h e n) [
          | inl thrown ↦ inl (rw thrown)
          | inr (io', taken, s) ↦
              let (io'', rest) = receive_all-Stuck conn_id chunks io' s in
              inr (io'', rw (taken, rest))
        ]
