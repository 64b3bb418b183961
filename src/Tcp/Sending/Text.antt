-- ===== src/Tcp/Sending/Text.antt =====
-- What SendEx gives to Windows.
use windows_verifyserver.Prelude.{
  ℕ, ◌+◌, ◌≤◌, ◌<◌, ◌≡◌, ◌≢◌, refl, sym, List, [], ◌∷◌, ◌++◌, some, Bool, true, false, ne→==,
  length, take, drop, length-append, append_assoc, arith,
}
use windows_verifyserver.Prelude.Memory.{copy_at, copy_next, copy_behind, take-append}
use windows_verifyserver.Prelude.Results.{ok, ◌>>=◌}
use windows_verifyserver.Tcp.Platform.{Platform, IsSound, Allocates}
use windows_verifyserver.Tcp.Packet.{prepare_send_buf}
use windows_verifyserver.Tcp.Packet.Layout.{packet, bytes, prepare_send_buf-packet}
use windows_verifyserver.Tcp.Connections.{Server, max_buffer}
use windows_verifyserver.Tcp.Worker.Holds.{Holds}
use windows_verifyserver.Tcp.Sending.{send_buf, send_ex, c_string}
use windows_verifyserver.Tcp.Sending.Wire.{Sends}
use windows_verifyserver.Tcp.Sending.Sends.{IsConnected, send_buf-Sends, length-packet}

-- No byte of the text is NUL.
abbrev pub IsText : List ℕ → Type 0
IsText [] = Unit
IsText (b ∷ bs) = (b ≢ 0) × IsText bs

c_string-text : (text rest : List ℕ) → IsText text → c_string (text ++ 0 ∷ rest) ≡ some text
unfolding c_string
c_string-text [] rest t = refl
c_string-text (b ∷ bs) rest t = rw (c_string, ne→== b 0 t.0, c_string-text bs rest t.1) refl

-- A copy to the start of a block.
copy_start :
    (block out : List ℕ)
    → length out ≤ length block
    → copy_at block 0 out ≡ some (out ++ drop (length out) block)
copy_start block out h = copy_behind 0 [] block out refl h

-- pTmp, once it is filled: the text and a NUL.
filled :
    (block text : List ℕ)
    → length block ≡ length text + 1
    → copy_at (text ++ drop (length text) block) (length text) (0 ∷ [])
      ≡ some ((text ++ 0 ∷ []) ++ drop (length text + 1) block)
filled block text e = copy_next (length text) text block (0 ∷ []) refl (omega (arith, e))

-- The packet goes to _send.
packed-Sends :
    (started : ℕ → Bool) (s : Server) (conn_id sock : ℕ) (buf text out rest : List ℕ) (n : ℕ)
    → prepare_send_buf buf text 50 ≡ ok (out ++ rest, n)
    → n ≡ length out
    → Holds [] s
    → IsConnected s conn_id sock
    → 0 < n
    → n ≤ max_buffer
    → Sends s
        (started n)
        ((sock, out) ∷ [])
        (prepare_send_buf buf text 50 >>= λ r. send_buf false started s conn_id (take r.1 r.0))
packed-Sends started s conn_id sock buf text out rest n e l v c g h = rw e (
    rw (take-append n out rest l, l)
      (send_buf-Sends started s conn_id sock out v c (omega arith) (omega arith)))

module _ (p : Platform) (sound : IsSound p) (limit : ℕ) (big : 1074 ≤ limit)
    (room : Allocates p limit) where
  -- Where the contexts are in order, the number stands for a connection and memory can be had, SendEx
  -- of a text of at most 1009 bytes of UTF-8 without a NUL gives Windows one write on its socket, of
  -- the packet of the text. It says whether Windows took it, and leaves the contexts in order and the
  -- connections as they were.
  pub send_ex-Sends :
      (started : ℕ → Bool) (s : Server) (conn_id sock : ℕ) (text : List ℕ)
      → Holds [] s
      → IsConnected s conn_id sock
      → IsText text
      → length text + 15 ≤ max_buffer
      → Sends s
          (started (length text + 15))
          ((sock, bytes (packet 50 text)) ∷ [])
          (send_ex p true started s conn_id (text ++ 0 ∷ []))
  unfolding send_ex
  send_ex-Sends started s conn_id sock text v c t h =
      let n = length text in
      let (str, a) = room 1024 (omega (arith, big)) in
      let (tmp, b) = room (n + 1) (omega (arith, big, h)) in
      let (buf, d) = room (n + 50) (omega (arith, big, h)) in
      let sa = sound.new_size 1024 str a in
      let sb = sound.new_size (n + 1) tmp b in
      let sd = sound.new_size (n + 50) buf d in
      let l : length (text ++ 0 ∷ []) ≡ n + 1 = length-append text (0 ∷ []) in
      rw (send_ex, c.found, a)
        (rw
          (
            copy_start str (text ++ 0 ∷ []) (omega (arith, l, sa, h)),
            append_assoc text (0 ∷ []) (drop (length (text ++ 0 ∷ [])) str),
            c_string-text text (drop (length (text ++ 0 ∷ [])) str) t,
          )
          (rw
            (
              b,
              copy_start tmp text (omega (arith, sb)),
              filled tmp text sb,
              append_assoc text (0 ∷ []) (drop (n + 1) tmp),
              take-append n text (0 ∷ drop (n + 1) tmp) refl,
            )
            (rw d (
              packed-Sends started s conn_id sock buf text (bytes (packet 50 text))
                (drop (n + 15) buf) (n + 15)
                (prepare_send_buf-packet buf text 50 (omega (arith, sd))) (sym (length-packet text))
                v c (omega arith) h))))
